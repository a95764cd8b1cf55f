-- ===== src/Shared/NixSupport.antt =====
-- `parse_nix_support_from_outputs` of crates/shared/src/lib.rs: what a build leaves in the directory
-- `nix-support` of its outputs. The files are an argument.
pub mod Directories
pub mod Read
mod Tests
use mathlib.Core.Option
use mathlib.Core.Option.{Option}
use hydra_queue_runner.Base.Text.{Text, text_eq, codes}
use hydra_queue_runner.Base.{
  Bool, List, ℕ, Option, none, false, unwrap_or, ◌∷◌, [], if◌then◌else◌, some, not, ◌==◌, ◌&&◌,
  ◌++◌, ◌⊎◌, take, true, inl, length, inr, ◌-◌, drop,
}
use hydra_queue_runner.BinaryCache.Compression.{trim}
use hydra_queue_runner.BinaryCache.NarInfo.Parse.{words_from}
use hydra_queue_runner.NixUtils.StorePath.{ends_with, file_name, print_store_path, StorePath, name}
use hydra_queue_runner.NixUtils.Derivation.{Output}
use hydra_queue_runner.Shared.Product.{
  BuildMetric, parse_metric, parse_release_name, parse_build_product, BuildProduct, Patterns,
  FsOperations,
}

pub record NixSupport : Type 0 where
  pub failed : Bool
  pub hydra_release_name : Option Text
  pub metrics : List BuildMetric
  pub products : List BuildProduct

-- The lines of a file, and whether reading ends with an error behind them.
pub record Lines : Type 0 where
  pub lines : List Text
  pub broken : Bool

-- The files: the lines of a file that can be opened, whether a path exists, the text of a file,
-- and whether a path is a directory.
pub record Files : Type 0 where
  pub open_file : Text → Option Lines
  pub try_exists : Text → Bool
  pub read_to_string : Text → Option Text
  pub is_dir : Text → Option Bool

-- An error of reading, or a panic of a slice.
pub data SupportError : Type 0 where
  read_error name_panic : SupportError

-- `Path::join` with a relative path.
unfoldable pub join_path : Text → Text → Text
unfolding ends_with
join_path p rel = if ends_with b'/' p then p ++ rel else p ++ b'/' ∷ rel

unfoldable pub support_file : Text → StorePath → Text → Text
unfolding join_path print_store_path
support_file prefix output file =
    join_path (print_store_path prefix output) (codes "nix-support/" ++ file)

abbrev pub filter_map {ℓ} : {A B : Type ℓ} → (A → Option B) → List A → List B
filter_map f [] = []
filter_map f (x ∷ xs) = elim (f x) [ none ↦ filter_map f xs | some y ↦ y ∷ filter_map f xs ]

-- The loop over the lines of one file; none where reading fails.
unfoldable pub read_lines : {A : Type 0} → (Text → Option A) → Lines → Option (List A)
read_lines f ls = if ls.broken then none else some (filter_map f ls.lines)

unfoldable pub read_metrics : Patterns → Files → Text → List StorePath → Option (List BuildMetric)
unfolding read_lines parse_metric support_file
read_metrics pt files prefix [] = some []
read_metrics pt files prefix (o ∷ os) =
    let rest = read_metrics pt files prefix os in
    elim (files.open_file (support_file prefix o (codes "hydra-metrics"))) [
      | none ↦ rest
      | some ls ↦ elim (read_lines (λ line. parse_metric pt prefix line o) ls) [
        | none ↦ none
        | some ms ↦ Option.map (λ ns. ms ++ ns) rest
      ]
    ]

unfoldable pub has_failed : Files → Text → List StorePath → Bool
unfolding support_file
has_failed files prefix [] = false
has_failed files prefix (o ∷ os) =
    let rest = has_failed files prefix os in
    if files.try_exists (support_file prefix o (codes "failed")) then true else rest

unfoldable pub release_of : Patterns → Files → Text → List StorePath → Option Text
unfolding parse_release_name support_file
release_of pt files prefix [] = none
release_of pt files prefix (o ∷ os) =
    let rest = release_of pt files prefix os in
    elim (files.read_to_string (support_file prefix o (codes "hydra-release-name"))) [
      | none ↦ rest
      | some v ↦ elim (parse_release_name pt v) [ none ↦ rest | some n ↦ some n ]
    ]

-- The explicit products, and whether a file lists them.
unfoldable pub read_products :
    Patterns → Files → FsOperations → Text → List StorePath → Option (Bool × List BuildProduct)
unfolding read_lines parse_build_product support_file
read_products pt files fs prefix [] = some (false, [])
read_products pt files fs prefix (o ∷ os) =
    let rest = read_products pt files fs prefix os in
    elim (files.open_file (support_file prefix o (codes "hydra-build-products"))) [
      | none ↦ rest
      | some ls ↦ elim (read_lines (parse_build_product pt prefix fs o) ls) [
        | none ↦ none
        | some ps ↦ Option.map (λ r. (true, ps ++ r.1)) rest
      ]
    ]

unfoldable pub directory_product : Text → Text → Text → BuildProduct
unfolding text_eq
directory_product output_name full_path name = record {
  path = full_path;
  default_path = [];
  kind = codes "nix-build";
  subtype = if text_eq output_name (codes "out") then [] else output_name;
  name = name;
  is_regular = false;
  sha256hash = none;
  file_size = none;
}

-- The products of a build that lists none: its outputs that are directories. None where the name
-- of a path panics.
unfoldable pub default_products : Files → Text → List Output → Option (List BuildProduct)
unfolding directory_product print_store_path name
default_products files prefix [] = some []
default_products files prefix (o ∷ os) =
    let rest = default_products files prefix os in
    elim o.path [
      | none ↦ rest
      | some path ↦
          if unwrap_or (files.is_dir (print_store_path prefix path)) false
          then elim (name path) [
            | none ↦ none
            | some n ↦
                Option.map (λ ps. directory_product o.name (print_store_path prefix path) n ∷ ps)
                  rest
          ]
          else rest
    ]

unfoldable pub products_of :
    Files → Text → List Output → (Bool × List BuildProduct) → Option (List BuildProduct)
unfolding default_products
products_of files prefix outputs (explicit, ps) =
    if explicit then some ps else default_products files prefix outputs

unfoldable pub parse_nix_support_from_outputs :
    Patterns → Files → FsOperations → Text → List Output → (SupportError ⊎ NixSupport)
unfolding read_metrics has_failed release_of read_products products_of
parse_nix_support_from_outputs pt files fs prefix derivation_outputs =
    let outputs = filter_map (λ o. o.path) derivation_outputs in
    elim (read_metrics pt files prefix outputs) [
      | none ↦ inl read_error
      | some ms ↦ elim (read_products pt files fs prefix outputs) [
        | none ↦ inl read_error
        | some found ↦ elim (products_of files prefix derivation_outputs found) [
          | none ↦ inl name_panic
          | some ps ↦ inr (record {
            failed = has_failed files prefix outputs;
            hydra_release_name = release_of pt files prefix outputs;
            metrics = ms;
            products = ps;
          })
        ]
      ]
    ]
