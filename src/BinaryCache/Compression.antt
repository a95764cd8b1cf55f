-- ===== src/BinaryCache/Compression.antt =====
-- crates/binary-cache/src/compression.rs, and the operations of `str` on white space that it and
-- the parser of a narinfo use. The encoders are another crate's and not modelled.
mod Tests
use hydra_queue_runner.Base.Text.{Text, codes, text_eq, strip_prefix}
use hydra_queue_runner.Base.{
  List, ℕ, Bool, Option, ◌∷◌, true, ◌⊎◌, if◌then◌else◌, [], is_some, false, some, map, ◌-◌, length,
  ◌==◌, ◌||◌, none, suc, inr, zero, inl,
}
use hydra_queue_runner.NixUtils.StorePath.{to_ascii_lower}
use Prim.Native.Nat.{zero}

pub data Compression : Type 0 where
  no_compression xz bzip2 brotli zstd : Compression

unfoldable pub ext : Compression → Text
ext no_compression = codes "nar"
ext xz = codes "nar.xz"
ext bzip2 = codes "nar.bz2"
ext brotli = codes "nar.br"
ext zstd = codes "nar.zst"

unfoldable pub as_str : Compression → Text
as_str no_compression = codes "none"
as_str xz = codes "xz"
as_str bzip2 = codes "bz2"
as_str brotli = codes "br"
as_str zstd = codes "zstd"

-- The characters with the property White_Space, in UTF-8.
abbrev pub spaces : List Text
spaces =
    codes "\t"
    ∷ codes "\n"
    ∷ (11 ∷ [])
    ∷ (12 ∷ [])
    ∷ codes "\r"
    ∷ codes " "
    ∷ (194 ∷ 133 ∷ [])
    ∷ (194 ∷ 160 ∷ [])
    ∷ (225 ∷ 154 ∷ 128 ∷ [])
    ∷ (226 ∷ 128 ∷ 128 ∷ [])
    ∷ (226 ∷ 128 ∷ 129 ∷ [])
    ∷ (226 ∷ 128 ∷ 130 ∷ [])
    ∷ (226 ∷ 128 ∷ 131 ∷ [])
    ∷ (226 ∷ 128 ∷ 132 ∷ [])
    ∷ (226 ∷ 128 ∷ 133 ∷ [])
    ∷ (226 ∷ 128 ∷ 134 ∷ [])
    ∷ (226 ∷ 128 ∷ 135 ∷ [])
    ∷ (226 ∷ 128 ∷ 136 ∷ [])
    ∷ (226 ∷ 128 ∷ 137 ∷ [])
    ∷ (226 ∷ 128 ∷ 138 ∷ [])
    ∷ (226 ∷ 128 ∷ 168 ∷ [])
    ∷ (226 ∷ 128 ∷ 169 ∷ [])
    ∷ (226 ∷ 128 ∷ 175 ∷ [])
    ∷ (226 ∷ 129 ∷ 159 ∷ [])
    ∷ (227 ∷ 128 ∷ 128 ∷ [])
    ∷ []

-- The length of the first of these characters that begins the text; 0 if none does.
unfoldable pub space_len : List Text → Text → ℕ
unfolding strip_prefix
space_len [] s = 0
space_len (c ∷ cs) s = if is_some (strip_prefix c s) then length c else space_len cs s

-- `str::trim_start`; the first argument counts the bytes of a white space that are left.
unfoldable pub skip_spaces : ℕ → Text → Text
unfolding space_len
skip_spaces n [] = []
skip_spaces zero (c ∷ s) =
    let n = space_len spaces (c ∷ s) in
    let rest = skip_spaces (n - 1) s in if n == 0 then c ∷ s else rest
skip_spaces (suc n) (c ∷ s) = skip_spaces n s

abbrev is_empty : Text → Bool
is_empty [] = true
is_empty (_ ∷ _) = false

-- `str::trim_end`
unfoldable pub trim_end : Text → Text
unfolding skip_spaces
trim_end [] = []
trim_end (c ∷ s) =
    let rest = trim_end s in if is_empty (skip_spaces 0 (c ∷ s)) then [] else c ∷ rest

-- `str::trim`
unfoldable pub trim : Text → Text
unfolding skip_spaces trim_end
trim s = trim_end (skip_spaces 0 s)

-- `Compression::from_str`; its error is the text itself.
unfoldable pub compression_of : Text → Option Compression
unfolding text_eq
compression_of o =
    if text_eq o (codes "none")
    then some no_compression
    else if text_eq o (codes "xz")
    then some xz
    else if text_eq o (codes "bz2")
    then some bzip2
    else if text_eq o (codes "br")
    then some brotli
    else if text_eq o (codes "zstd") || text_eq o (codes "zst")
    then some zstd
    else none

unfoldable pub parse_compression : Text → (Compression ⊎ Text)
unfolding compression_of trim to_ascii_lower
parse_compression s =
    let o = map to_ascii_lower (trim s) in elim (compression_of o) [ none ↦ inr o | some c ↦ inl c ]
