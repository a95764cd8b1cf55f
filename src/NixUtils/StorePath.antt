-- ===== src/NixUtils/StorePath.antt =====
-- crates/nix-utils/src/store_path.rs, and `print_store_path` of crates/nix-utils/src/lib.rs.
-- The store directory, which the source asks Nix for, is an argument. The debug assertions are not
-- modelled: a release build does not have them.
pub mod Laws
mod Tests
use hydra_queue_runner.Base.{
  ℕ, zero, suc, ◌+◌, ◌-◌, ◌≡◌, ◌↔◌, Bool, true, false, not, ◌&&◌, ◌||◌, Option, none, some, List,
  [], ◌∷◌, ◌++◌, if◌then◌else◌, ◌==◌, leb, length, take, drop, retain, unwrap_or, arith,
}
use hydra_queue_runner.Base.Text.{Text, codes, text_eq, text_eq_iff, strip_prefix}
use hydra_queue_runner.Base.Map.{Eq}

abbrev pub hash_len : ℕ
hash_len = 32

pub record StorePath : Type 0 where
  pub base_name : Text

unfoldable pub path_eq : StorePath → StorePath → Bool
path_eq a b = text_eq a.base_name b.base_name

pub path_eq_iff : (a b : StorePath) → (path_eq a b ≡ true) ↔ (a ≡ b)
unfolding path_eq
path_eq_iff a b = ground (arith, text_eq_iff a.base_name b.base_name)

instance abbrev pub path_Eq : Eq StorePath
path_Eq = record { beq = path_eq; beq_iff = path_eq_iff }

-- `str::ends_with` for one byte.
unfoldable pub ends_with : ℕ → Text → Bool
ends_with c [] = false
ends_with c (a ∷ []) = a == c
ends_with c (a ∷ b ∷ s) = ends_with c (b ∷ s)

-- The static `STORE_DIR`: the store directory with one closing slash.
unfoldable pub store_dir_prefix : Text → Text
unfolding ends_with
store_dir_prefix dir = if ends_with b'/' dir then dir else dir ++ b'/' ∷ []

-- `p.strip_prefix('/').unwrap_or(p)`
unfoldable pub without_slash : Text → Text
unfolding strip_prefix
without_slash p = unwrap_or (strip_prefix (b'/' ∷ []) p) p

unfoldable pub new_store_path : Text → Text → StorePath
unfolding store_dir_prefix without_slash strip_prefix
new_store_path store_dir p = elim (strip_prefix (store_dir_prefix store_dir) p) [
  | none ↦ record { base_name = without_slash p }
  | some postfix ↦ record { base_name = without_slash postfix }
]

-- A slice that starts behind the end of the text panics: `none`.
unfoldable pub name : StorePath → Option Text
name p =
    if leb (hash_len + 1) (length p.base_name) then some (drop (hash_len + 1) p.base_name) else none

unfoldable pub hash_part : StorePath → Option Text
hash_part p = if leb hash_len (length p.base_name) then some (take hash_len p.base_name) else none

-- The components of `std::path::Path`: the parts between slashes, without empty ones and `.`.
unfoldable pub split_on : ℕ → Text → Text → List Text
split_on c part [] = part ∷ []
split_on c part (a ∷ s) = if a == c then part ∷ split_on c [] s else split_on c (part ++ a ∷ []) s

abbrev last_of : List Text → Option Text
last_of [] = none
last_of (x ∷ []) = some x
last_of (x ∷ y ∷ xs) = last_of (y ∷ xs)

-- `Path::file_name`.
unfoldable pub file_name : Text → Option Text
unfolding split_on text_eq
file_name p =
    elim (last_of
      (retain (λ c. not (text_eq c []) && not (text_eq c (codes "."))) (split_on b'/' [] p))) [
        | none ↦ none
        | some c ↦ if text_eq c (codes "..") then none else some c
      ]

-- The part of a file name behind its last dot; none if there is no dot, or only a leading one.
unfoldable pub extension_from : Bool → Option Text → Text → Option Text
extension_from started found [] = found
extension_from started found (a ∷ s) =
    if a == b'.' && started
    then extension_from true (some []) s
    else extension_from true (elim found [ none ↦ none | some e ↦ some (e ++ a ∷ []) ]) s

-- `Path::extension`.
unfoldable pub extension : Text → Option Text
unfolding file_name extension_from
extension p = elim (file_name p) [ none ↦ none | some f ↦ extension_from false none f ]

unfoldable pub to_ascii_lower : ℕ → ℕ
to_ascii_lower c = if leb b'A' c && leb c b'Z' then c + 32 else c

-- `str::eq_ignore_ascii_case`.
unfoldable pub eq_ignore_ascii_case : Text → Text → Bool
unfolding to_ascii_lower
eq_ignore_ascii_case [] [] = true
eq_ignore_ascii_case [] (b ∷ t) = false
eq_ignore_ascii_case (a ∷ s) [] = false
eq_ignore_ascii_case (a ∷ s) (b ∷ t) =
    to_ascii_lower a == to_ascii_lower b && eq_ignore_ascii_case s t

unfoldable pub is_drv : StorePath → Bool
unfolding extension eq_ignore_ascii_case
is_drv p = elim (extension p.base_name) [
  | none ↦ false
  | some e ↦ eq_ignore_ascii_case e (codes "drv")
]

-- `BaseStoreImpl::print_store_path` under a store with this prefix.
unfoldable pub print_store_path : Text → StorePath → Text
print_store_path prefix p = prefix ++ (b'/' ∷ p.base_name)
