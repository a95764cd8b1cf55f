-- ===== src/Shared/Product.antt =====
-- crates/shared/src/lib.rs: the parsers of a release name, a metric and a product. The patterns of
-- the regex crate, the files and the reading of a float are arguments.
use mathlib.Core.Option
use mathlib.Core.Option.{Option}
use hydra_queue_runner.Base.Text.{Text, text_eq}
use hydra_queue_runner.Base.{
  Bool, List, ℕ, Option, none, false, unwrap_or, ◌∷◌, [], if◌then◌else◌, some, not, ◌==◌, ◌&&◌,
  take, length, ◌-◌, drop,
}
use hydra_queue_runner.BinaryCache.Compression.{trim}
use hydra_queue_runner.BinaryCache.NarInfo.Parse.{words_from}
use hydra_queue_runner.NixUtils.StorePath.{ends_with, file_name, print_store_path, StorePath}

pub record BuildProduct : Type 0 where
  pub path : Text
  pub default_path : Text
  pub kind : Text
  pub subtype : Text
  pub name : Text
  pub is_regular : Bool
  pub sha256hash : Option Text
  pub file_size : Option ℕ

-- The value of a metric is the bits of an `f64`.
pub record BuildMetric : Type 0 where
  pub path : Text
  pub name : Text
  pub unit : Option Text
  pub value : ℕ

pub record FileMetadata : Type 0 where
  pub is_regular : Bool
  pub size : ℕ

-- The trait `FsOperations`; none is an error.
pub record FsOperations : Type 0 where
  pub is_inside_store : Text → Bool
  pub get_metadata : Text → Option FileMetadata
  pub get_file_hash : Text → Option Text

-- The groups that `BUILD_PRODUCT_PARSER` captures; the path is not a single quote.
pub record Captures : Type 0 where
  pub kind : Text
  pub subtype : Text
  pub path : Text
  pub default_path : Option Text

-- The patterns, and the reading of an `f64`.
pub record Patterns : Type 0 where
  pub metrics_name : Text → Bool
  pub metrics_unit : Text → Bool
  pub release_name : Text → Bool
  pub product_name : Text → Bool
  pub captures : Text → Option Captures
  pub parse_f64 : Text → Option ℕ

unfoldable pub parse_release_name : Patterns → Text → Option Text
unfolding trim
parse_release_name pt content = elim (trim content) [
  | [] ↦ none
  | c ∷ cs ↦ if pt.release_name (c ∷ cs) then some (c ∷ cs) else none
]

unfoldable pub unit_of : Patterns → List Text → Option Text
unit_of pt [] = none
unit_of pt (u ∷ us) = if pt.metrics_unit u then some u else none

-- `parse_metric`, for the fields of the line.
unfoldable pub metric_of : Patterns → Text → List Text → Option BuildMetric
unfolding unit_of
metric_of pt path [] = none
metric_of pt path (n ∷ []) = none
metric_of pt path (n ∷ v ∷ rest) =
    if not (pt.metrics_name n)
    then none
    else some (record {
      path = path;
      name = n;
      unit = unit_of pt rest;
      value = unwrap_or (pt.parse_f64 v) 0;
    })

unfoldable pub parse_metric : Patterns → Text → Text → StorePath → Option BuildMetric
unfolding metric_of words_from print_store_path
parse_metric pt prefix line output =
    metric_of pt (print_store_path prefix output) (words_from 0 [] line)

abbrev starts_with : ℕ → Text → Bool
starts_with c [] = false
starts_with c (a ∷ s) = a == c

-- The path of a product, without its quotes.
unfoldable pub unquoted : Text → Text
unfolding ends_with
unquoted s = if starts_with b'"' s && ends_with b'"' s then take (length s - 2) (drop 1 s) else s

unfoldable pub product_name_of : Patterns → Text → Text → Text
unfolding file_name text_eq
product_name_of pt full_path path =
    let name = if text_eq path full_path then [] else unwrap_or (file_name path) [] in
    if pt.product_name name then name else []

unfoldable pub product_of :
    Patterns → FsOperations → Text → Captures → Text → FileMetadata → BuildProduct
unfolding product_name_of
product_of pt fs full_path c path m = record {
  path = path;
  default_path = unwrap_or c.default_path [];
  kind = c.kind;
  subtype = c.subtype;
  name = product_name_of pt full_path path;
  is_regular = m.is_regular;
  sha256hash = if m.is_regular then fs.get_file_hash path else none;
  file_size = if m.is_regular then some m.size else none;
}

unfoldable pub parse_build_product :
    Patterns → Text → FsOperations → StorePath → Text → Option BuildProduct
unfolding unquoted product_of print_store_path
parse_build_product pt prefix fs output line = elim (pt.captures line) [
  | none ↦ none
  | some c ↦
      let path = unquoted c.path in
      if not (starts_with b'/' path)
      then none
      else if not (fs.is_inside_store path)
      then none
      else Option.map (product_of pt fs (print_store_path prefix output) c path)
          (fs.get_metadata path)
]
