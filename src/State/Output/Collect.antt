-- ===== src/State/Output/Collect.antt =====
-- What the loop over the outputs of a message collects.
use hydra_queue_runner.Base.Map
use hydra_queue_runner.Base.Map.{Map}
use hydra_queue_runner.Base.{
  ℕ, ◌+◌, ◌%◌, ◌<◌, ◌≡◌, refl, ◌∙◌, Option, none, some, List, [], ◌∷◌, arith, if◌then◌else◌,
}
use hydra_queue_runner.Base.Text.{Text, text_eq, text_Eq}
use hydra_queue_runner.State.Output.{
  SentOutput, collect_sent, output_of_result, StorePath, add_output, BuildResultInfo, name_only,
  Collected, add64, with_path, nothing_collected,
}
use hydra_queue_runner.NixUtils.StorePath.{StorePath, new_store_path}
use hydra_queue_runner.Base.Words.{add64, two_64}

-- The path that a list of outputs gives for a name: that of the last output with the name.
unfoldable pub last_path : Text → Text → List (Option SentOutput) → Option StorePath
last_path store_dir name [] = none
last_path store_dir name (none ∷ os) = last_path store_dir name os
last_path store_dir name (some (name_only _) ∷ os) = last_path store_dir name os
last_path store_dir name (some (with_path n path _ _) ∷ os) =
    let rest = last_path store_dir name os in
    elim rest [
      | none ↦ if text_eq n name then some (new_store_path store_dir path) else none
      | some p ↦ some p
    ]

-- The sum of a size over the outputs that have a path.
unfoldable pub total_nar : List (Option SentOutput) → ℕ
total_nar [] = 0
total_nar (none ∷ os) = total_nar os
total_nar (some (name_only _) ∷ os) = total_nar os
total_nar (some (with_path _ _ _ nar) ∷ os) = nar + total_nar os

collect_sent-get :
    (store_dir name : Text) (os : List (Option SentOutput)) (c : Collected)
    → Map.get name (collect_sent store_dir os c).outputs
      ≡ elim (last_path store_dir name os) as (λ _. Option StorePath) [
        | none ↦ Map.get name c.outputs
        | some p ↦ some p
      ]
unfolding collect_sent add_output last_path
collect_sent-get store_dir name [] c = refl
collect_sent-get store_dir name (none ∷ os) c = collect_sent-get store_dir name os c
collect_sent-get store_dir name (some (name_only _) ∷ os) c = collect_sent-get store_dir name os c
collect_sent-get store_dir name (some (with_path n path closure nar) ∷ os) c =
    let p = new_store_path store_dir path in
    ground (
      arith,
      collect_sent-get store_dir name os (add_output n p closure nar c),
      Map.get-insert n name p c.outputs,
    )

collect_sent-nar :
    (store_dir : Text) (os : List (Option SentOutput)) (c : Collected)
    → c.nar_size < two_64
    → (collect_sent store_dir os c).nar_size ≡ (c.nar_size + total_nar os) % two_64
unfolding collect_sent add_output total_nar add64
collect_sent-nar store_dir [] c h = omega arith
collect_sent-nar store_dir (none ∷ os) c h = collect_sent-nar store_dir os c h
collect_sent-nar store_dir (some (name_only _) ∷ os) c h = collect_sent-nar store_dir os c h
collect_sent-nar store_dir (some (with_path n path closure nar) ∷ os) c h = omega (
  arith,
  collect_sent-nar store_dir os (add_output n (new_store_path store_dir path) closure nar c),
)

-- The outputs that the runner reads from the message of a builder: each name has the path of its
-- last output with a path, names without one are missing, and the size is the sum of the archive
-- sizes of the outputs with a path, modulo 2^64.
pub output_of_result-outputs :
    (store_dir name : Text) (v : BuildResultInfo)
    → (Map.get name (output_of_result store_dir v).outputs ≡ last_path store_dir name v.outputs)
      × ((output_of_result store_dir v).size ≡ total_nar v.outputs % two_64)
unfolding output_of_result Map.get
output_of_result-outputs store_dir name v = (
  collect_sent-get store_dir name v.outputs nothing_collected
      ∙ or_none (last_path store_dir name v.outputs),
  ground (arith, collect_sent-nar store_dir v.outputs nothing_collected),
)
  where
    or_none :
        (o : Option StorePath)
        → (elim o as (λ _. Option StorePath) [ none ↦ none | some p ↦ some p ]) ≡ o
    or_none none = refl
    or_none (some p) = refl
