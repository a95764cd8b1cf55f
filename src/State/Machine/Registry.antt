-- ===== src/State/Machine/Registry.antt =====
-- `Machines` of queue-runner/src/state/machine.rs: the builders by id and by system. A builder lives
-- at an address, since both maps share it. The order of `by_uuid` stands for that of a hash map.
pub mod Find
pub mod Index
use hydra_queue_runner.Base.{
  ℕ, zero, suc, ◌+◌, ◌-◌, ◌*◌, ◌/◌, ◌%◌, ◌^◌, ◌≤◌, ◌<◌, min, max, compare, Ordering, ◌≡◌, refl, sym,
  ap, subst, ◌∙◌, ◌≡⟨◌⟩◌, ◌∎, ◌≢◌, ◌↔◌, ◌⊎◌, inl, inr, Bool, true, false, not, ◌&&◌, ◌||◌, Option,
  none, some, List, [], ◌∷◌, ◌++◌, map, flat_map, arith, ltb, leb, ◌==◌, if◌then◌else◌, is_some,
  unwrap_or, ltb→lt, ==_iff, Bool-cases, Option-cases, length, length-append, take, drop,
  take-append-drop, length-take, retain, any, all, find, count_if, All, length-retain, All-append,
  In, any-append, some_inj, find-test, All-retain,
}
use hydra_queue_runner.Base.Compare.{reverse, or_else}
use hydra_queue_runner.Base.Map
use hydra_queue_runner.Base.Map.{Map}
use hydra_queue_runner.Base.Sort.{sort_by}
use hydra_queue_runner.Base.Text.{Text, codes, text_eq, text_Eq}
use hydra_queue_runner.State.Heap.{Step}
use hydra_queue_runner.State.Step.{get_system, get_required_features}
use hydra_queue_runner.State.Machine.{Machine, contains_text, publish_config_update}
use hydra_queue_runner.State.Machine.Capacity.{
  Floats32, MachineSortFn, MachineFreeFn, has_capacity, supports_all_features, score, total_key32,
}

instance abbrev pub uuid_Eq : Map.Eq ℕ
uuid_Eq = record { beq = λ a b. a == b; beq_iff = ==_iff }

pub record Machines : Type 0 where
  pub by_uuid : Map ℕ ℕ
  pub by_system : Map Text (List ℕ)
  pub supported_features : List Text
  pub machine : ℕ → Machine
  pub next : ℕ

unfoldable pub set_machine : Machines → ℕ → Machine → Machines
set_machine ms a m = record ms { machine = λ b. if a == b then m else ms.machine b }

-- The comparison of `sort`: the higher score first, then the fewer jobs.
unfoldable pub cmp_machine : Floats32 → MachineSortFn → (ℕ → Machine) → ℕ → ℕ → Ordering
unfolding score total_key32
cmp_machine fl f machine a b =
    or_else
      (reverse
        (compare (total_key32 (score fl f (machine a))) (total_key32 (score fl f (machine b)))))
      (compare (machine a).stats.current_jobs (machine b).stats.current_jobs)

unfoldable pub sort_lists : (ℕ → ℕ → Ordering) → Map Text (List ℕ) → Map Text (List ℕ)
unfolding sort_by
sort_lists cmp [] = []
sort_lists cmp ((s, l) ∷ m) = (s, sort_by cmp l) ∷ sort_lists cmp m

unfoldable pub sort : Floats32 → MachineSortFn → Machines → Machines
unfolding sort_lists cmp_machine
sort fl f ms = record ms { by_system = sort_lists (cmp_machine fl f ms.machine) ms.by_system }

-- `collect::<HashSet<_>>()`
unfoldable pub distinct : List Text → List Text
unfolding contains_text
distinct [] = []
distinct (t ∷ ts) = let rest = distinct ts in if contains_text rest t then rest else t ∷ rest

unfoldable pub reconstruct_supported_features : Machines → Machines
unfolding distinct
reconstruct_supported_features ms = record ms {
  supported_features =
      distinct (flat_map (λ (e : ℕ × ℕ). (ms.machine e.1).join.supported_features) ms.by_uuid);
}

-- `v.push(machine)` for one system, with `entry(..).or_default()`.
unfoldable pub push_system : ℕ → Text → Map Text (List ℕ) → Map Text (List ℕ)
push_system a s m = Map.insert s (unwrap_or (Map.get s m) [] ++ a ∷ []) m

unfoldable pub push_systems : ℕ → List Text → Map Text (List ℕ) → Map Text (List ℕ)
unfolding push_system
push_systems a [] m = m
push_systems a (s ∷ ss) m = push_systems a ss (push_system a s m)

unfoldable pub insert_machine : Floats32 → MachineSortFn → Machine → Machines → Machines × ℕ
unfolding push_systems sort reconstruct_supported_features set_machine
insert_machine fl f m ms =
    let a = ms.next in
    let ms' : Machines = record (set_machine ms a m) {
      by_uuid = Map.insert m.id a ms.by_uuid;
      by_system = push_systems a m.join.systems ms.by_system;
      next = suc a;
    } in
    (reconstruct_supported_features (sort fl f ms'), m.id)

-- `v.retain(|o| o.id != machine_id)` for one system.
unfoldable pub drop_system : (ℕ → Machine) → ℕ → Text → Map Text (List ℕ) → Map Text (List ℕ)
drop_system machine id s m = elim (Map.get s m) [
  | none ↦ m
  | some l ↦ Map.insert s (retain (λ o. not ((machine o).id == id)) l) m
]

unfoldable pub drop_systems : (ℕ → Machine) → ℕ → List Text → Map Text (List ℕ) → Map Text (List ℕ)
unfolding drop_system
drop_systems machine id [] m = m
drop_systems machine id (s ∷ ss) m = drop_systems machine id ss (drop_system machine id s m)

unfoldable pub remove_machine : ℕ → Machines → Machines × Option ℕ
unfolding drop_systems reconstruct_supported_features
remove_machine id ms = elim (Map.get id ms.by_uuid) [
  | none ↦ (reconstruct_supported_features ms, none)
  | some a ↦ (
    reconstruct_supported_features (record ms {
      by_uuid = Map.remove id ms.by_uuid;
      by_system = drop_systems ms.machine id (ms.machine a).join.systems ms.by_system;
    }),
    some a,
  )
]

unfoldable pub get_machine_by_id : ℕ → Machines → Option ℕ
get_machine_by_id id ms = Map.get id ms.by_uuid

-- The tests on features in the closure of `find`.
unfoldable pub suits : List Text → Machine → Bool
unfolding contains_text supports_all_features
suits required m =
    all (λ s. contains_text required s) m.join.mandatory_features
    && supports_all_features required m

-- `find` over a list of builders: a question for capacity may reset a window.
unfoldable pub find_machine :
    Floats32 → ℕ → List Text → Option MachineFreeFn → List ℕ → Machines → Machines × Option ℕ
unfolding suits has_capacity set_machine
find_machine fl now required none l ms = (ms, find (λ a. suits required (ms.machine a)) l)
find_machine fl now required (some free) [] ms = (ms, none)
find_machine fl now required (some free) (a ∷ l) ms =
    let asked = has_capacity fl now free (ms.machine a) in
    let ms' = set_machine ms a asked.0 in
    if asked.1 && suits required (ms.machine a)
    then (ms', some a)
    else find_machine fl now required (some free) l ms'

abbrev pub builtin : Text
builtin = codes "builtin"

unfoldable pub get_machine_for_system :
    Floats32 → ℕ → Text → List Text → Option MachineFreeFn → Machines → Machines × Option ℕ
unfolding find_machine
get_machine_for_system fl now system required free ms =
    if text_eq system builtin
    then find_machine fl now required free (map (λ (e : ℕ × ℕ). e.1) ms.by_uuid) ms
    else elim (Map.get system ms.by_system) [
      | none ↦ (ms, none)
      | some machines ↦ find_machine fl now required free machines ms
    ]

unfoldable pub support_step : Floats32 → ℕ → Step → Machines → Bool
unfolding get_machine_for_system get_system get_required_features
support_step fl now s ms = elim (get_system s) [
  | none ↦ false
  | some system ↦ is_some (get_machine_for_system fl now system (get_required_features s) none ms).1
]

unfoldable pub get_all_machines : Machines → List ℕ
get_all_machines ms = map (λ (e : ℕ × ℕ). e.1) ms.by_uuid

unfoldable pub get_machine_count : Machines → ℕ
get_machine_count ms = length ms.by_uuid

unfoldable pub get_machine_count_in_use : Machines → ℕ
get_machine_count_in_use ms =
    count_if (λ (e : ℕ × ℕ). ltb 0 (ms.machine e.1).stats.current_jobs) ms.by_uuid

-- The loop of `publish_new_config`: a builder whose channel is closed is passed over.
unfoldable pub publish_all : (ℕ → Bool) → ℕ → List ℕ → Machines → Machines
unfolding publish_config_update set_machine
publish_all sent cfg [] ms = ms
publish_all sent cfg (a ∷ l) ms =
    publish_all sent cfg l (elim (publish_config_update (sent a) cfg (ms.machine a)) [
      | none ↦ ms
      | some m ↦ set_machine ms a m
    ])

unfoldable pub publish_new_config : (ℕ → Bool) → ℕ → Machines → Machines
unfolding publish_all get_all_machines
publish_new_config sent cfg ms = publish_all sent cfg (get_all_machines ms) ms
