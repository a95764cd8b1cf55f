-- ===== src/BinaryCache/NarInfo.antt =====
-- `NarInfo` of crates/binary-cache/src/narinfo.rs: what a cache says of one archive, its
-- signatures and its text. The conversion of hashes and the signature are Nix's, and arguments.
-- A slice that ends behind the end of its text panics: `none`.
pub mod Signed
pub mod Parse
pub mod Marks
pub mod Required
mod Tests
use mathlib.Core.Option
use hydra_queue_runner.NixUtils.StorePath.{StorePath, print_store_path, hash_part}
use hydra_queue_runner.Base.{
  Option, ℕ, List, if◌then◌else◌, [], ◌∷◌, length, Bool, map, some, ◌&&◌, ◌++◌, suc, leb, true, not,
  ◌+◌, ◌==◌, none, unwrap_or, take, false, ◌%◌, drop, ◌/◌, ltb, zero,
}
use hydra_queue_runner.Base.Text.{Text, strip_prefix, text_eq, codes}
use hydra_queue_runner.BinaryCache.Compression.{ext, Compression, as_str}
use mathlib.Core.Option.{none}
use Prim.Native.Nat.{zero}

pub record PathInfo : Type 0 where
  pub deriver : Option StorePath
  pub nar_hash : Text
  -- the bits of an `i64`
  pub registration_time : ℕ
  pub nar_size : ℕ
  pub refs : List StorePath
  pub sigs : List Text
  pub ca : Option Text

pub record NarInfo : Type 0 where
  pub store_path : StorePath
  pub url : Text
  pub compression : Compression
  pub file_hash : Option Text
  pub file_size : Option ℕ
  pub nar_hash : Text
  pub nar_size : ℕ
  pub references : List StorePath
  pub deriver : Option StorePath
  pub ca : Option Text
  pub sigs : List Text

-- What the code asks Nix and the store for: the directory of every store, the prefix of the
-- local one, the conversion of a hash from base 16 to Nix's base 32, and the signature of a
-- text under a secret key.
pub record Nix : Type 0 where
  pub store_dir : Text
  pub prefix : Text
  pub convert_hash : Text → Option Text
  pub sign_string : Text → Text → Text

-- `format!("{n}")`
unfoldable pub digits_on : ℕ → ℕ → Text → Text
digits_on zero n s = s
digits_on (suc fuel) n s =
    let s' = (48 + n % 10) ∷ s in
    let rest = digits_on fuel (n / 10) s' in if ltb n 10 then s' else rest

-- A `u64` has at most twenty digits.
unfoldable pub digits : ℕ → Text
unfolding digits_on
digits n = digits_on 20 n []

-- `[..].join(sep)`
unfoldable pub join : Text → List Text → Text
join sep [] = []
join sep (s ∷ []) = s
join sep (s ∷ t ∷ ts) = s ++ sep ++ join sep (t ∷ ts)

unfoldable pub nix32_hash : Nix → Text → Text
nix32_hash nix h = if length h == 71 then unwrap_or (nix.convert_hash (drop 7 h)) h else h

-- The part of the hash that names the archive. The path is asked for its own where the hash has
-- no `sha256:`.
unfoldable pub hash_url : StorePath → Text → Option Text
unfolding strip_prefix hash_part
hash_url path h = elim (strip_prefix (codes "sha256:") h) [
  | some u ↦ some u
  | none ↦ hash_part path
]

-- `NarInfo::simple`
unfoldable pub simple : Nix → StorePath → PathInfo → Compression → Option NarInfo
unfolding nix32_hash hash_url ext
simple nix path info c =
    let h = nix32_hash nix info.nar_hash in
    elim (hash_url path h) [
      | none ↦ none
      | some u ↦ some (record {
        store_path = path;
        url = codes "nar/" ++ u ++ codes "." ++ ext c;
        compression = c;
        file_hash = none;
        file_size = none;
        nar_hash = h;
        nar_size = info.nar_size;
        references = info.refs;
        deriver = info.deriver;
        ca = info.ca;
        sigs = [];
      })
    ]

-- Whether a printed path begins with the store directory; none where the slice panics.
unfoldable pub is_below : Text → Text → Option Bool
unfolding text_eq
is_below dir p =
    if leb (length dir) (length p) then some (text_eq (take (length dir) p) dir) else none

unfoldable pub all_below : Text → List Text → Option Bool
unfolding is_below
all_below dir [] = some true
all_below dir (r ∷ rs) =
    let rest = all_below dir rs in
    elim (is_below dir r) [ none ↦ none | some b ↦ if b then rest else some false ]

-- The text that is signed.
unfoldable pub fingerprint : Nix → NarInfo → Text → List Text → Text
unfolding digits join
fingerprint nix n abs_path refs =
    codes "1;"
    ++ abs_path
    ++ codes ";"
    ++ n.nar_hash
    ++ codes ";"
    ++ digits n.nar_size
    ++ codes ";"
    ++ join (codes ",") refs

-- Whether a hash begins with `sha256:`; none where the slice panics.
unfoldable pub has_sha256 : Text → Option Bool
unfolding text_eq
has_sha256 h = if leb 7 (length h) then some (text_eq (take 7 h) (codes "sha256:")) else none

-- The first condition of `fingerprint_path`: the hash of the archive is looked at only where the path is below the store directory.
unfoldable pub is_signable : Nix → NarInfo → Text → Option Bool
unfolding is_below has_sha256
is_signable nix n abs_path = elim (is_below nix.store_dir abs_path) [
  | none ↦ none
  | some below ↦ if below then has_sha256 n.nar_hash else some false
]

unfoldable pub fingerprint_path : Nix → NarInfo → Option (Option Text)
unfolding is_signable all_below fingerprint print_store_path
fingerprint_path nix n =
    let abs_path = print_store_path nix.prefix n.store_path in
    let refs = map (print_store_path nix.prefix) n.references in
    elim (is_signable nix n abs_path) [
      | none ↦ none
      | some signable ↦
          if not signable
          then some none
          else if not (length n.nar_hash == 59)
          then some none
          else elim (all_below nix.store_dir refs) [
            | none ↦ none
            | some below ↦
                if below then some (some (fingerprint nix n abs_path refs)) else some none
          ]
    ]

-- `NarInfo::clear_sigs_and_sign`
unfoldable pub clear_sigs_and_sign : Nix → NarInfo → List Text → Option NarInfo
unfolding fingerprint_path
clear_sigs_and_sign nix n [] = some (record n { sigs = [] })
clear_sigs_and_sign nix n (key ∷ keys) = elim (fingerprint_path nix n) [
  | none ↦ none
  | some found ↦ elim found [
    | none ↦ some (record n { sigs = [] })
    | some fp ↦ some (record n { sigs = map (λ s. nix.sign_string s fp) (key ∷ keys) })
  ]
]

abbrev is_nil : List Text → Bool
is_nil [] = true
is_nil (_ ∷ _) = false

unfoldable pub or_given : PathInfo → NarInfo → NarInfo
or_given info n =
    if is_nil n.sigs && not (is_nil info.sigs) then record n { sigs = info.sigs } else n

-- `NarInfo::new`
unfoldable pub new_narinfo : Nix → StorePath → PathInfo → Compression → List Text → Option NarInfo
unfolding simple clear_sigs_and_sign or_given
new_narinfo nix path info c keys = elim (simple nix path info c) [
  | none ↦ none
  | some n ↦ elim (clear_sigs_and_sign nix n keys) [
    | none ↦ none
    | some n' ↦ some (or_given info n')
  ]
]

unfoldable pub get_ls_path : NarInfo → Option Text
unfolding hash_part
get_ls_path n = elim (hash_part n.store_path) [ none ↦ none | some h ↦ some (h ++ codes ".ls") ]

-- `writeln!(o, "{key}: {value}")`
unfoldable pub field_line : Text → Text → Text
field_line key value = key ++ codes ": " ++ value ++ codes "\n"

unfoldable pub optional_line : Text → Option Text → Text
unfolding field_line
optional_line key none = []
optional_line key (some value) = field_line key value

abbrev concat : List Text → Text
concat [] = []
concat (s ∷ ss) = s ++ concat ss

-- `NarInfo::render`; writing to a string does not fail.
unfoldable pub render : Nix → NarInfo → Text
unfolding field_line optional_line digits join as_str print_store_path
render nix n =
    field_line (codes "StorePath") (print_store_path nix.prefix n.store_path)
    ++ field_line (codes "URL") n.url
    ++ field_line (codes "Compression") (as_str n.compression)
    ++ optional_line (codes "FileHash") n.file_hash
    ++ optional_line (codes "FileSize") (Option.map digits n.file_size)
    ++ field_line (codes "NarHash") n.nar_hash
    ++ field_line (codes "NarSize") (digits n.nar_size)
    ++ field_line (codes "References") (join (codes " ") (map (λ p. p.base_name) n.references))
    ++ optional_line (codes "Deriver") (Option.map (λ p. p.base_name) n.deriver)
    ++ optional_line (codes "CA") n.ca
    ++ concat (map (field_line (codes "Sig")) n.sigs)
