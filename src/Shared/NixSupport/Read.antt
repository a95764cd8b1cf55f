-- ===== src/Shared/NixSupport/Read.antt =====
-- What `parse_nix_support_from_outputs` reads, against a description per output.
use mathlib.Core.Option
use mathlib.Core.List.{flat_map}
use mathlib.Core.Sum.{inl-ne-inr, inr-injective}
use mathlib.Core.Option.{Option}
use hydra_queue_runner.Base.{
  Option, List, [], Bool, ◌≡◌, is_some, some, any, none, ◌∷◌, true, ◌++◌, arith, ◌||◌, refl, sym,
  some_inj, ◌⊎◌, inl, inr, subst, ◌∙◌, ap, false,
}
use hydra_queue_runner.Base.Text.{Text, codes}
use hydra_queue_runner.NixUtils.StorePath.{StorePath}
use Option.{none}
use hydra_queue_runner.NixUtils.Derivation.{Output}
use hydra_queue_runner.Shared.NixSupport.{
  Lines, support_file, read_lines, read_metrics, has_failed, read_products,
  parse_nix_support_from_outputs, Files, filter_map, Patterns, BuildProduct, products_of,
  parse_metric, FsOperations, NixSupport, parse_build_product, SupportError, name_panic, read_error,
  release_of,
}
use hydra_queue_runner.Shared.Product.{
  BuildMetric, Patterns, BuildProduct, parse_metric, FsOperations, parse_build_product,
}
use hydra_queue_runner.Shared.NixSupport.Directories.{
  DirectoryProducts, default_products-directories,
}

-- The lines of a file; none where it cannot be opened.
abbrev pub lines_of : Option Lines → List Text
lines_of none = []
lines_of (some ls) = ls.lines

-- What the lines of one file of an output give.
unfoldable pub said :
    {A : Type 0} → Files → Text → Text → (StorePath → Text → Option A) → StorePath → List A
unfolding support_file
said files prefix file f o =
    filter_map (f o) (lines_of (files.open_file (support_file prefix o file)))

unfoldable pub is_there : Files → Text → Text → StorePath → Bool
unfolding support_file
is_there files prefix file o = is_some (files.open_file (support_file prefix o file))

-- One round of the loop over the metrics, for any answer of the two parts.
metrics_round :
    (f : Text → Option BuildMetric) (file : Option Lines) (rest : Option (List BuildMetric))
    (all ms : List BuildMetric)
    → ((ns : List BuildMetric) → rest ≡ some ns → ns ≡ all)
    → Path
        (Option (List BuildMetric))
        (elim file as (λ _. Option (List BuildMetric)) [
          | none ↦ rest
          | some ls ↦ elim (read_lines f ls) [
            | none ↦ none
            | some first ↦ Option.map (λ ns. first ++ ns) rest
          ]
        ])
        (some ms)
    → ms ≡ filter_map f (lines_of file) ++ all
unfolding read_lines
metrics_round f none rest all ms below e = below ms e
metrics_round f (some ls) none all ms below e = ground (arith, e)
metrics_round f (some ls) (some ns) all ms below e = ground (arith, e, below ns refl)

read_metrics-said :
    (pt : Patterns) (files : Files) (prefix : Text) (os : List StorePath) (ms : List BuildMetric)
    → read_metrics pt files prefix os ≡ some ms
    → ms
      ≡ flat_map
          (said files prefix (codes "hydra-metrics") (λ o line. parse_metric pt prefix line o))
          os
unfolding read_metrics said flat_map
read_metrics-said pt files prefix [] ms e = sym (some_inj _ _ e)
read_metrics-said pt files prefix (o ∷ os) ms e =
    metrics_round (λ line. parse_metric pt prefix line o)
      (files.open_file (support_file prefix o (codes "hydra-metrics")))
      (read_metrics pt files prefix os) _ ms (read_metrics-said pt files prefix os) e

has_failed-any :
    (files : Files) (prefix : Text) (os : List StorePath)
    → has_failed files prefix os
      ≡ any (λ o. files.try_exists (support_file prefix o (codes "failed"))) os
unfolding has_failed
has_failed-any files prefix [] = refl
has_failed-any files prefix (o ∷ os) = ground (arith, has_failed-any files prefix os)

products_round :
    (f : Text → Option BuildProduct) (file : Option Lines)
    (rest : Option (Bool × List BuildProduct)) (listed : Bool) (all : List BuildProduct)
    (r : Bool × List BuildProduct)
    → ((r' : Bool × List BuildProduct) → rest ≡ some r' → r' ≡ (listed, all))
    → Path
        (Option (Bool × List BuildProduct))
        (elim file as (λ _. Option (Bool × List BuildProduct)) [
          | none ↦ rest
          | some ls ↦ elim (read_lines f ls) [
            | none ↦ none
            | some first ↦ Option.map (λ r'. (true, first ++ r'.1)) rest
          ]
        ])
        (some r)
    → r ≡ (is_some file || listed, filter_map f (lines_of file) ++ all)
unfolding read_lines
products_round f none rest b all r below e = below r e
products_round f (some ls) none b all r below e = ground (arith, e)
products_round f (some ls) (some r') b all r below e = ground (arith, e, below r' refl)

read_products-said :
    (pt : Patterns) (files : Files) (fs : FsOperations) (prefix : Text) (os : List StorePath)
    (r : Bool × List BuildProduct)
    → read_products pt files fs prefix os ≡ some r
    → r ≡ (
      any (is_there files prefix (codes "hydra-build-products")) os,
      flat_map
          (said files prefix (codes "hydra-build-products") (parse_build_product pt prefix fs))
          os,
    )
unfolding read_products said is_there flat_map
read_products-said pt files fs prefix [] r e = sym (some_inj _ _ e)
read_products-said pt files fs prefix (o ∷ os) r e =
    products_round (parse_build_product pt prefix fs o)
      (files.open_file (support_file prefix o (codes "hydra-build-products")))
      (read_products pt files fs prefix os) _ _ r (read_products-said pt files fs prefix os) e

end_lem :
    (ms : List BuildMetric) (failed : Bool) (release : Option Text)
    (chosen : Option (List BuildProduct)) (s : NixSupport)
    → Path
        (SupportError ⊎ NixSupport)
        (elim chosen as (λ _. SupportError ⊎ NixSupport) [
          | none ↦ inl name_panic
          | some ps ↦ inr (record {
            failed = failed;
            hydra_release_name = release;
            metrics = ms;
            products = ps;
          })
        ])
        (inr s)
    → (s.metrics ≡ ms) × (s.failed ≡ failed) × (chosen ≡ some s.products)
end_lem ms failed release none s e = absurd (inl-ne-inr e)
end_lem ms failed release (some ps) s e =
    subst (λ s'. (s'.metrics ≡ ms) × (s'.failed ≡ failed) × (some ps ≡ some s'.products))
      (inr-injective _ _ e) (refl, refl, refl)

-- The end of the function, for any answer of its three parts.
support_lem :
    (all : List BuildMetric) (found : Bool × List BuildProduct) (failed : Bool)
    (release : Option Text) (ms : Option (List BuildMetric))
    (ps : Option (Bool × List BuildProduct))
    (choose : (Bool × List BuildProduct) → Option (List BuildProduct)) (s : NixSupport)
    → ((ms' : List BuildMetric) → ms ≡ some ms' → ms' ≡ all)
    → ((r : Bool × List BuildProduct) → ps ≡ some r → r ≡ found)
    → Path
        (SupportError ⊎ NixSupport)
        (elim ms as (λ _. SupportError ⊎ NixSupport) [
          | none ↦ inl read_error
          | some ms' ↦ elim ps as (λ _. SupportError ⊎ NixSupport) [
            | none ↦ inl read_error
            | some r ↦ elim (choose r) as (λ _. SupportError ⊎ NixSupport) [
              | none ↦ inl name_panic
              | some chosen ↦ inr (record {
                failed = failed;
                hydra_release_name = release;
                metrics = ms';
                products = chosen;
              })
            ]
          ]
        ])
        (inr s)
    → (s.metrics ≡ all) × (s.failed ≡ failed) × (choose found ≡ some s.products)
support_lem all found failed release none ps choose s m p e = absurd (inl-ne-inr e)
support_lem all found failed release (some ms) none choose s m p e = absurd (inl-ne-inr e)
support_lem all found failed release (some ms) (some r) choose s m p e =
    let done = end_lem ms failed release (choose r) s e in
    (done.0 ∙ m ms refl, done.1, ap choose (sym (p r refl)) ∙ done.2)

-- The products are the listed ones or the directories.
by_list :
    (files : Files) (prefix : Text) (outputs : List Output) (listed : Bool)
    (all ps : List BuildProduct)
    → products_of files prefix outputs (listed, all) ≡ some ps
    → ((listed ≡ true) × (ps ≡ all))
      ⊎ ((listed ≡ false) × DirectoryProducts files prefix outputs ps)
unfolding products_of
by_list files prefix outputs true all ps e = inl (refl, sym (some_inj all ps e))
by_list files prefix outputs false all ps e =
    inr (refl, default_products-directories files prefix outputs ps e)

-- What is read where it succeeds: the metrics are those of the lines of `hydra-metrics` of each
-- output that has a path, in the order of the outputs; the build failed exactly if one of these
-- has the file `failed`. If one of them has a file `hydra-build-products`, the products are those
-- of the lines of this file of each. Otherwise they are, in the order of the outputs, one product
-- for each output with a path that is a directory: of the kind `nix-build`, at that path, under its
-- name, of the subtype that the output is called, which is left out for `out`, and not a regular
-- file.
pub parse_nix_support_from_outputs-said :
    (pt : Patterns) (files : Files) (fs : FsOperations) (prefix : Text) (outputs : List Output)
    (s : NixSupport)
    → parse_nix_support_from_outputs pt files fs prefix outputs ≡ inr s
    → (s.metrics
        ≡ flat_map
            (said files prefix (codes "hydra-metrics") (λ o line. parse_metric pt prefix line o))
            (filter_map (λ o. o.path) outputs))
      × (s.failed
          ≡ any
              (λ o. files.try_exists (support_file prefix o (codes "failed")))
              (filter_map (λ o. o.path) outputs))
      × (((any
                (is_there files prefix (codes "hydra-build-products"))
                (filter_map (λ o. o.path) outputs)
              ≡ true)
            × (s.products
                ≡ flat_map
                    (said files prefix
                      (codes "hydra-build-products")
                      (parse_build_product pt prefix fs))
                    (filter_map (λ o. o.path) outputs)))
          ⊎ ((any
                  (is_there files prefix (codes "hydra-build-products"))
                  (filter_map (λ o. o.path) outputs)
                ≡ false)
              × DirectoryProducts files prefix outputs s.products))
unfolding parse_nix_support_from_outputs
parse_nix_support_from_outputs-said pt files fs prefix outputs s e =
    let os = filter_map (λ o. o.path) outputs in
    let done =
      support_lem _ _ (has_failed files prefix os) (release_of pt files prefix os)
        (read_metrics pt files prefix os) (read_products pt files fs prefix os)
        (products_of files prefix outputs) s (read_metrics-said pt files prefix os)
        (read_products-said pt files fs prefix os) e in
    (
      done.0,
      done.1 ∙ has_failed-any files prefix os,
      by_list files prefix outputs _ _ s.products done.2,
    )
