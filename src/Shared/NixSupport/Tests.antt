-- ===== src/Shared/NixSupport/Tests.antt =====
-- What a build leaves in `nix-support`: tests, and the theorem at a concrete build.
use hydra_queue_runner.Base.{
  none, some, true, false, List, ◌≡◌, flat_map, if◌then◌else◌, inr, ◌++◌, ◌∷◌, length, [], refl,
  any, Option, ◌⊎◌,
}
use mathlib.Core.Option
use Prim.Native.String.{String}
use hydra_queue_runner.NixUtils.StorePath.{StorePath, print_store_path}
use hydra_queue_runner.Base.Text.{Text, codes, text_eq}
use hydra_queue_runner.NixUtils.Derivation.{Output}
use hydra_queue_runner.Shared.NixSupport.Read.{said, is_there, parse_nix_support_from_outputs-said}
use hydra_queue_runner.Shared.Product.{
  Patterns, FsOperations, BuildMetric, BuildProduct, parse_build_product, parse_metric,
}
use hydra_queue_runner.Shared.NixSupport.{
  Files, NixSupport, parse_nix_support_from_outputs, support_file, directory_product,
}
use hydra_queue_runner.Shared.NixSupport.Directories.{DirectoryProducts}

abbrev patterns : Patterns
patterns = record {
  metrics_name = λ s. true;
  metrics_unit = λ s. true;
  release_name = λ s. true;
  product_name = λ s. true;
  captures = λ line. some (record {
    kind = codes "file";
    subtype = codes "iso";
    path = codes "\"" ++ line ++ codes "\"";
    default_path = none;
  });
  parse_f64 = λ s. some (length s);
}

abbrev tool : StorePath
tool = record { base_name = codes "abc123def45678901234567890123456-tool" }

abbrev doc : StorePath
doc = record { base_name = codes "abc123def45678901234567890123456-tool-doc" }

abbrev store : Text
store = codes "/nix/store"

-- The first output has the file of metrics and the second one has failed.
abbrev files : Files
files = record {
  open_file = λ p.
      if text_eq p (support_file store tool (codes "hydra-metrics"))
      then some (record { lines = codes "size  12 B" ∷ codes "x" ∷ []; broken = false })
      else none;
  try_exists = λ p. text_eq p (support_file store doc (codes "failed"));
  read_to_string = λ p.
      if text_eq p (support_file store doc (codes "hydra-release-name"))
      then some (codes " tool-1 \n")
      else none;
  is_dir = λ p. some (text_eq p (print_store_path store doc));
}

abbrev fs_ops : FsOperations
fs_ops = record {
  is_inside_store = λ p. true;
  get_metadata = λ p. some (record { is_regular = true; size = 12345 });
  get_file_hash = λ p. none;
}

abbrev output : String → Option StorePath → Output
output n p = record { name = codes n; path = p; hash = none; hash_algo = none }

abbrev outputs : List Output
outputs = output "out" (some tool) ∷ output "dev" none ∷ output "doc" (some doc) ∷ []

abbrev size_metric : BuildMetric
size_metric = record {
  path = print_store_path store tool;
  name = codes "size";
  unit = some (codes "B");
  value = 2;
}

abbrev doc_product : BuildProduct
doc_product = directory_product (codes "doc") (print_store_path store doc) (codes "tool-doc")

abbrev support : NixSupport
support = record {
  failed = true;
  hydra_release_name = some (codes "tool-1");
  metrics = size_metric ∷ [];
  products = doc_product ∷ [];
}

support_of_outputs :
    parse_nix_support_from_outputs patterns files fs_ops store outputs ≡ inr support
unfolding parse_nix_support_from_outputs directory_product
support_of_outputs = refl

product_test :
    Option.map
      (λ p. p.name)
      (parse_build_product patterns store fs_ops tool (codes "/nix/store/x/iso/custom.iso"))
    ≡ some (codes "custom.iso")
unfolding parse_build_product
product_test = refl

parse_nix_support_from_outputs-said_example :
    (support.metrics
      ≡ flat_map
          (said files store (codes "hydra-metrics") (λ o line. parse_metric patterns store line o))
          (tool ∷ doc ∷ []))
    × (support.failed
        ≡ any (λ o. files.try_exists (support_file store o (codes "failed"))) (tool ∷ doc ∷ []))
    × (((any (is_there files store (codes "hydra-build-products")) (tool ∷ doc ∷ []) ≡ true)
          × (support.products
              ≡ flat_map
                  (said files store
                    (codes "hydra-build-products")
                    (parse_build_product patterns store fs_ops))
                  (tool ∷ doc ∷ [])))
        ⊎ ((any (is_there files store (codes "hydra-build-products")) (tool ∷ doc ∷ []) ≡ false)
            × DirectoryProducts files store outputs support.products))
parse_nix_support_from_outputs-said_example =
    parse_nix_support_from_outputs-said patterns files fs_ops store outputs support
      support_of_outputs
