-- ===== src/BinaryCache/NarInfo/Tests.antt =====
-- Narinfos: tests, and the theorems at concrete inputs.
use mathlib.Core.Option
use hydra_queue_runner.BinaryCache.Compression.{xz, zstd}
use hydra_queue_runner.BinaryCache.NarInfo.{
  Nix, PathInfo, NarInfo, simple, fingerprint_path, new_narinfo, render,
}
use hydra_queue_runner.NixUtils.StorePath.{StorePath}
use hydra_queue_runner.Base.Text.{Text, codes}
use hydra_queue_runner.BinaryCache.NarInfo.Signed.{signatures, new_narinfo-sigs}
use hydra_queue_runner.BinaryCache.NarInfo.Parse.{
  from_str, lines_from, bad_line, blank, missing_field, bad_int, pos_overflow,
}
use hydra_queue_runner.Base.{any, none, ◌≡◌, some, inr, inl, ◌∷◌, [], ◌++◌, refl, take, true}
use hydra_queue_runner.BinaryCache.NarInfo.Marks.{has_key, needs_nar_size}
use hydra_queue_runner.BinaryCache.NarInfo.Required.{from_str_required}

abbrev nix : Nix
nix = record {
  store_dir = codes "/nix/store";
  prefix = codes "/nix/store";
  convert_hash = λ h. some (codes "sha256:" ++ take 52 h);
  sign_string = λ key fp. key ++ codes ":" ++ take 2 fp;
}

abbrev hello_path : StorePath
hello_path = record { base_name = codes "abc123def45678901234567890123456-hello" }

abbrev hello_info : PathInfo
hello_info = record {
  deriver = none;
  nar_hash = codes "sha256:abcdefabcdefabcdefabcdefabcdefabcdefabcdefabcdefabcd";
  registration_time = 0;
  nar_size = 1024;
  refs = hello_path ∷ [];
  sigs = codes "old" ∷ [];
  ca = none;
}

abbrev hello : NarInfo
hello = record {
  store_path = hello_path;
  url = codes "nar/abcdefabcdefabcdefabcdefabcdefabcdefabcdefabcdefabcd.nar.xz";
  compression = xz;
  file_hash = none;
  file_size = none;
  nar_hash = codes "sha256:abcdefabcdefabcdefabcdefabcdefabcdefabcdefabcdefabcd";
  nar_size = 1024;
  references = hello_path ∷ [];
  deriver = none;
  ca = none;
  sigs = [];
}

abbrev hello_fingerprint : Text
hello_fingerprint =
    codes
      "1;/nix/store/abc123def45678901234567890123456-hello;sha256:abcdefabcdefabcdefabcdefabcdefabcdefabcdefabcdefabcd;1024;/nix/store/abc123def45678901234567890123456-hello"

unsigned_hello : simple nix hello_path hello_info xz ≡ some hello
unfolding simple
unsigned_hello = refl

fingerprint_of_hello : fingerprint_path nix hello ≡ some (some hello_fingerprint)
unfolding fingerprint_path
fingerprint_of_hello = refl

new_narinfo-sigs_example :
    Option.map (λ m. m.sigs) (new_narinfo nix hello_path hello_info xz (codes "a" ∷ codes "b" ∷ []))
    ≡ some (codes "a:1;" ∷ codes "b:1;" ∷ [])
unfolding signatures
new_narinfo-sigs_example =
    new_narinfo-sigs nix hello_path hello_info xz (codes "a" ∷ codes "b" ∷ []) hello
      (some hello_fingerprint) unsigned_hello fingerprint_of_hello

unsigned :
    Option.map (λ m. m.sigs) (new_narinfo nix hello_path hello_info xz []) ≡ some (codes "old" ∷ [])
unfolding new_narinfo
unsigned = refl

-- The text that is written is read back.
round_trip_test : from_str nix.store_dir (render nix hello) ≡ inr hello
unfolding from_str render
round_trip_test = refl

bad_tests :
    (from_str nix.store_dir (codes "# x\nURL: a\nSig") ≡ inl (bad_line 3))
    × (from_str nix.store_dir (codes "StorePath: a\n") ≡ inl (missing_field (codes "URL")))
    × (from_str nix.store_dir (codes "NarSize: 18446744073709551616")
        ≡ inl (bad_int (codes "NarSize") pos_overflow))
unfolding from_str
bad_tests = (refl, refl, refl)

small :
    from_str nix.store_dir
      (codes "StorePath: x\nURL: u\n\nCompression:zst\nNarHash: h\nNarSize: +7\r\n")
    ≡ inr (record (blank (record { base_name = codes "x" })) {
      url = codes "u";
      compression = zstd;
      nar_hash = codes "h";
      nar_size = 7;
    })
unfolding from_str
small = refl

from_str_required_example :
    any
      (has_key (codes "NarSize"))
      (lines_from [] (codes "StorePath: x\nURL: u\n\nCompression:zst\nNarHash: h\nNarSize: +7\r\n"))
    ≡ true
from_str_required_example =
    from_str_required nix.store_dir
      (codes "StorePath: x\nURL: u\n\nCompression:zst\nNarHash: h\nNarSize: +7\r\n")
      (record (blank (record { base_name = codes "x" })) {
        url = codes "u";
        compression = zstd;
        nar_hash = codes "h";
        nar_size = 7;
      })
      needs_nar_size small
