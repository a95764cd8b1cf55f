-- ===== src/NixUtils/StorePath/Laws.antt =====
-- Store paths: printing and reading back, and the two parts of a base name.
use hydra_queue_runner.Base.{
  ℕ, zero, ◌+◌, ◌≤◌, ◌≡◌, refl, false, none, some, [], ◌∷◌, ◌++◌, length, take, drop, arith, ap,
  ◌∙◌, suc, length-take,
}
use mathlib.Core.List.{append_assoc}
use hydra_queue_runner.Base.Text.{Text, strip_prefix, strip_prefix-append}
use hydra_queue_runner.NixUtils.StorePath.{
  StorePath, ends_with, store_dir_prefix, without_slash, new_store_path, name, hash_part,
  print_store_path,
}

-- A base name does not begin with a slash.
abbrev pub IsBaseName : Text → Type 0
IsBaseName s = strip_prefix (b'/' ∷ []) s ≡ none

without_slash-base_name : (s : Text) → IsBaseName s → without_slash s ≡ s
unfolding without_slash
without_slash-base_name s h = ground arith

-- Reading back a printed store path gives the path, where the store directory is given without a
-- closing slash and the base name does not begin with one.
pub new-print :
    (store_dir : Text) (p : StorePath)
    → ends_with b'/' store_dir ≡ false
    → IsBaseName p.base_name
    → new_store_path store_dir (print_store_path store_dir p) ≡ p
unfolding new_store_path print_store_path store_dir_prefix
new-print store_dir p plain base = ground (
  arith,
  strip_prefix-append (store_dir ++ b'/' ∷ []) p.base_name,
  append_assoc store_dir (b'/' ∷ []) p.base_name,
  without_slash-base_name p.base_name base,
)

-- `StorePath::new` is idempotent: the base name of a path that it made, read again, is that path,
-- unless it begins with a slash or lies under the store directory once more.
pub new-base_name :
    (store_dir : Text) (p : StorePath)
    → IsBaseName p.base_name
    → strip_prefix (store_dir_prefix store_dir) p.base_name ≡ none
    → new_store_path store_dir p.base_name ≡ p
unfolding new_store_path
new-base_name store_dir p base outside = ground (arith, without_slash-base_name p.base_name base)

split_around :
    (k : ℕ) (s : Text) → k + 1 ≤ length s → (c : ℕ) × (s ≡ take k s ++ c ∷ drop (suc k) s)
split_around k [] h = absurd (omega arith)
split_around zero (c ∷ s) h = (c, refl)
split_around (suc k) (c ∷ s) h =
    let (d, e) = split_around k s (omega arith) in (d, ap (λ (t : Text). c ∷ t) e)

-- Where `name` does not panic, neither does `hash_part`, and the base name is the hash part, one
-- byte, and the name; the hash part is 32 bytes long.
pub name-hash_part :
    (p : StorePath) (n : Text)
    → name p ≡ some n
    → (h : Text) × (c : ℕ) × (hash_part p ≡ some h) × (p.base_name ≡ h ++ c ∷ n) × (length h ≡ 32)
unfolding name hash_part
name-hash_part p n e =
    let (c, s) = split_around 32 p.base_name (ground arith) in
    (
      take 32 p.base_name,
      c,
      ground arith,
      s ∙ ground arith,
      ground (arith, length-take 32 p.base_name),
    )
