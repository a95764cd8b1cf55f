-- ===== src/Shared/NixSupport/Directories.antt =====
-- The products of a build that lists none, described output by output.
use mathlib.Core.Option
use hydra_queue_runner.Base.{
  none, some, true, false, List, ◌≡◌, [], Option, subst, Bool, some_inj, ◌∷◌, ◌⊎◌, Option-cases,
  ◌≢◌, Bool-cases, if◌then◌else◌, inl, unwrap_or, inr, refl,
}
use hydra_queue_runner.Shared.NixSupport.{
  Files, directory_product, default_products, Text, StorePath, Output, BuildProduct,
}
use hydra_queue_runner.Base.Text.{Text, codes, text_eq, text_eq_iff}
use hydra_queue_runner.NixUtils.StorePath.{StorePath, print_store_path, name}
use hydra_queue_runner.NixUtils.Derivation.{Output}
use hydra_queue_runner.Shared.Product.{BuildProduct}

-- A path is a directory, for all that is known.
abbrev pub IsDirectory : Files → Text → StorePath → Type 0
IsDirectory files prefix p = files.is_dir (print_store_path prefix p) ≡ some true

-- The products of outputs where none is listed: the outputs with a path that is a directory, in
-- their order.
pub data DirectoryProducts (files : Files) (prefix : Text)
    : List Output → List BuildProduct → Type 0 where
  no_output : DirectoryProducts files prefix [] []
  no_path :
      {os : List Output} {ps : List BuildProduct} (o : Output)
      → o.path ≡ none
      → DirectoryProducts files prefix os ps
      → DirectoryProducts files prefix (o ∷ os) ps
  no_directory :
      {os : List Output} {ps : List BuildProduct} (o : Output) (p : StorePath)
      → o.path ≡ some p
      → ¬ IsDirectory files prefix p
      → DirectoryProducts files prefix os ps
      → DirectoryProducts files prefix (o ∷ os) ps
  directory :
      {os : List Output} {ps : List BuildProduct} (o : Output) (p : StorePath) (b : BuildProduct)
      → o.path ≡ some p
      → IsDirectory files prefix p
      → name p ≡ some b.name
      → b.kind ≡ codes "nix-build"
      → ((o.name ≡ codes "out") × (b.subtype ≡ []))
        ⊎ ((o.name ≢ codes "out") × (b.subtype ≡ o.name))
      → b.path ≡ print_store_path prefix p
      → (b.default_path ≡ [])
        × (b.is_regular ≡ false)
        × (b.sha256hash ≡ none)
        × (b.file_size ≡ none)
      → DirectoryProducts files prefix os ps
      → DirectoryProducts files prefix (o ∷ os) (b ∷ ps)

subtype-cases :
    (n full_path p : Text)
    → ((n ≡ codes "out") × ((directory_product n full_path p).subtype ≡ []))
      ⊎ ((n ≢ codes "out") × ((directory_product n full_path p).subtype ≡ n))
unfolding directory_product
subtype-cases n full_path p = elim (Bool-cases (text_eq n (codes "out"))) [
  | inl same ↦ inl ((text_eq_iff n (codes "out")).0 same, rw (same, directory_product) refl)
  | inr other ↦
      inr (
        λ same. cc (other, (text_eq_iff n (codes "out")).1 same),
        rw (other, directory_product) refl,
      )
]

-- One round of the loop for an output with a path, for any answer of the file system, any name and
-- any products of the rest.
directory_round :
    (files : Files) (prefix : Text) (o : Output) (os : List Output) (p : StorePath)
    (ps : List BuildProduct) (is_dir : Option Bool) (n : Option Text)
    (rest : Option (List BuildProduct))
    → o.path ≡ some p
    → files.is_dir (print_store_path prefix p) ≡ is_dir
    → name p ≡ n
    → ((qs : List BuildProduct) → rest ≡ some qs → DirectoryProducts files prefix os qs)
    → Path
        (Option (List BuildProduct))
        (if unwrap_or is_dir false
          then elim n [
            | none ↦ none
            | some n' ↦
                Option.map (λ qs. directory_product o.name (print_store_path prefix p) n' ∷ qs) rest
          ]
          else rest)
        (some ps)
    → DirectoryProducts files prefix (o ∷ os) ps
unfolding directory_product
directory_round files prefix o os p ps none n rest has e m below run =
    no_directory o p has (λ d. cc (e, d)) (below ps run)
directory_round files prefix o os p ps (some false) n rest has e m below run =
    no_directory o p has (λ d. cc (e, d)) (below ps run)
directory_round files prefix o os p ps (some true) none rest has e m below run = cc
directory_round files prefix o os p ps (some true) (some n) none has e m below run = cc
directory_round files prefix o os p ps (some true) (some n) (some qs) has e m below run =
    subst (DirectoryProducts files prefix (o ∷ os)) (some_inj _ ps run) (
      directory o p (directory_product o.name (print_store_path prefix p) n) has e m refl
        (subtype-cases o.name (print_store_path prefix p) n) refl (refl, refl, refl, refl)
        (below qs refl))

pub default_products-directories :
    (files : Files) (prefix : Text) (os : List Output) (ps : List BuildProduct)
    → default_products files prefix os ≡ some ps
    → DirectoryProducts files prefix os ps
unfolding default_products
default_products-directories files prefix [] ps run =
    subst (DirectoryProducts files prefix []) (some_inj [] ps run) no_output
default_products-directories files prefix (o ∷ os) ps run = elim (Option-cases o.path) [
  | inl missing ↦
      no_path o missing
        (default_products-directories files prefix os ps (rw (missing, default_products) at run))
  | inr (p, has) ↦
      directory_round files prefix o os p ps (files.is_dir (print_store_path prefix p)) (name p)
        (default_products files prefix os) has refl refl
        (default_products-directories files prefix os) (rw (has, default_products) at run)
]
