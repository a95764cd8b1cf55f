-- ===== src/State/Machine/Registry/Index.antt =====
-- The two indices of `Machines` under insertion and removal of a builder.
use hydra_queue_runner.Base.{
  ℕ, compare, Ordering, ◌≡◌, refl, sym, subst, ◌≢◌, inl, inr, Bool, true, false, not, none, some,
  List, [], ◌∷◌, arith, ◌==◌, if◌then◌else◌, unwrap_or, Bool-cases, Option-cases, retain, any, find,
  All, some_inj, ◌∙◌, Option, find-test,
}
use hydra_queue_runner.Base.Compare.{
  IsTotal, reverse, key-IsTotal, reverse-IsTotal, or_else-IsTotal,
}
use hydra_queue_runner.Base.Map
use hydra_queue_runner.Base.Map.{Map, get-insert, get-remove}
use hydra_queue_runner.Base.Sort.{sort_by, IsSorted, sort_by-IsSorted}
use hydra_queue_runner.Base.Text.{Text, text_eq, text_Eq, text_eq_iff}
use hydra_queue_runner.State.Machine.{Machine}
use hydra_queue_runner.State.Machine.Capacity.{
  Floats32, MachineSortFn, score, total_key32, MachineFreeFn,
}
use hydra_queue_runner.State.Machine.Registry.Find.{qualifies, find_machine-first}
use hydra_queue_runner.State.Machine.Registry.{
  uuid_Eq, cmp_machine, sort_lists, drop_system, drop_systems, remove_machine, insert_machine,
  get_machine_for_system, get_machine_by_id, sort, Machines, builtin,
  reconstruct_supported_features, set_machine, push_systems,
}

cmp_machine-IsTotal :
    (fl : Floats32) (f : MachineSortFn) (machine : ℕ → Machine) → IsTotal (cmp_machine fl f machine)
unfolding cmp_machine
cmp_machine-IsTotal fl f machine =
    or_else-IsTotal
      (λ a b.
        reverse
          (compare (total_key32 (score fl f (machine a))) (total_key32 (score fl f (machine b)))))
      (λ a b. compare (machine a).stats.current_jobs (machine b).stats.current_jobs)
      (reverse-IsTotal
        (λ a b.
          compare (total_key32 (score fl f (machine a))) (total_key32 (score fl f (machine b))))
        (key-IsTotal (λ a. total_key32 (score fl f (machine a)))))
      (key-IsTotal (λ a. (machine a).stats.current_jobs))

get-sort_lists :
    (cmp : ℕ → ℕ → Ordering) (s : Text) (m : Map Text (List ℕ))
    → Map.get s (sort_lists cmp m)
      ≡ (elim (Map.get s m) [ none ↦ none | some l ↦ some (sort_by cmp l) ])
unfolding sort_lists Map.get
get-sort_lists cmp s [] = refl
get-sort_lists cmp s ((t, l) ∷ m) = ground (arith, get-sort_lists cmp s m)

All-weaken : (P Q : ℕ → Type 0) → ((b : ℕ) → P b → Q b) → (l : List ℕ) → All P l → All Q l
All-weaken P Q f [] h = tt
All-weaken P Q f (b ∷ l) h = (f b h.0, All-weaken P Q f l h.1)

-- The first of a sorted list that passes a test is as good as each that passes it.
find-best :
    (cmp : ℕ → ℕ → Ordering) (p : ℕ → Bool) (l : List ℕ) (a : ℕ)
    → ((b : ℕ) → cmp b b ≢ Ordering.gt)
    → IsSorted cmp l
    → find p l ≡ some a
    → All (λ b. p b ≡ true → cmp a b ≢ Ordering.gt) l
find-best cmp p [] a r s h = tt
find-best cmp p (b ∷ l) a r s h = elim (Bool-cases (p b)) [
  | inl e ↦
      subst (λ x. All (λ c. p c ≡ true → cmp x c ≢ Ordering.gt) (b ∷ l))
        (some_inj b a (ground arith))
        (
          λ _. r b,
          All-weaken (λ c. cmp b c ≢ Ordering.gt) (λ c. p c ≡ true → cmp b c ≢ Ordering.gt)
              (λ c k _. k) l s.0,
        )
  | inr e ↦ (λ t g. ground arith, find-best cmp p l a r s.1 (ground arith))
]

module _ (machine : ℕ → Machine) (id : ℕ) where
  -- No builder of a list has the id.
  abbrev Gone : List ℕ → Type 0
  Gone l = All (λ o. ((machine o).id == id) ≡ false) l

  abbrev under : Text → Map Text (List ℕ) → List ℕ
  under s m = unwrap_or (Map.get s m) []

  Gone-retain : (l : List ℕ) → Gone (retain (λ o. not ((machine o).id == id)) l)
  Gone-retain [] = tt
  Gone-retain (o ∷ l) = ground (arith, Gone-retain l)

  under-drop_system :
      (t s : Text) (m : Map Text (List ℕ))
      → under s (drop_system machine id t m)
        ≡ (if text_eq t s then retain (λ o. not ((machine o).id == id)) (under s m) else under s m)
  unfolding drop_system
  under-drop_system t s m = elim (Option-cases (Map.get t m)) [
    | inl e ↦ ground (arith, e, text_eq_iff t s)
    | inr (l, e) ↦
        ground
          (arith, e, text_eq_iff t s, get-insert t s (retain (λ o. not ((machine o).id == id)) l) m)
  ]

  Gone-kept :
      (ss : List Text) (m : Map Text (List ℕ)) (s : Text)
      → Gone (under s m)
      → Gone (under s (drop_systems machine id ss m))
  unfolding drop_systems
  Gone-kept [] m s h = h
  Gone-kept (t ∷ ss) m s h = Gone-kept ss (drop_system machine id t m) s (
      subst Gone (sym (under-drop_system t s m))
        (elim (text_eq t s)
          as (λ b.
            Gone (if b then retain (λ o. not ((machine o).id == id)) (under s m) else under s m)) [
              | true ↦ Gone-retain (under s m)
              | false ↦ h
            ]))

  -- `drop_systems` takes the id out of the list of each system that it is given.
  Gone-drop_systems :
      (ss : List Text) (m : Map Text (List ℕ)) (s : Text)
      → any (λ t. text_eq t s) ss ≡ true
      → Gone (under s (drop_systems machine id ss m))
  unfolding drop_systems
  Gone-drop_systems [] m s h = ground arith
  Gone-drop_systems (t ∷ ss) m s h = elim (Bool-cases (text_eq t s)) [
    | inl e ↦
        Gone-kept ss (drop_system machine id t m) s
          (subst Gone (sym (under-drop_system t s m)) (rw e (Gone-retain (under s m))))
    | inr e ↦ Gone-drop_systems ss (drop_system machine id t m) s (ground arith)
  ]

-- A builder that is removed is found under its id no more, and in the list of none of its systems.
pub remove_machine-Gone :
    (ms : Machines) (id a : ℕ) (s : Text)
    → get_machine_by_id id ms ≡ some a
    → any (λ t. text_eq t s) (ms.machine a).join.systems ≡ true
    → ((remove_machine id ms).1 ≡ some a)
      × (get_machine_by_id id (remove_machine id ms).0 ≡ none)
      × All
          (λ o. ((ms.machine o).id == id) ≡ false)
          (unwrap_or (Map.get s (remove_machine id ms).0.by_system) [])
unfolding remove_machine get_machine_by_id
remove_machine-Gone ms id a s h t =
    let gone = Gone-drop_systems ms.machine id (ms.machine a).join.systems ms.by_system s t in
    (
      rw (h, remove_machine) refl,
      rw (h, remove_machine) (get-remove id id ms.by_uuid ∙ ground (arith, uuid_Eq.beq_iff id id)),
      rw (h, remove_machine) gone,
    )

sort_lists-IsSorted :
    (cmp : ℕ → ℕ → Ordering)
    → IsTotal cmp
    → (s : Text) (m : Map Text (List ℕ)) (l : List ℕ) → Map.get s (sort_lists cmp m) ≡ some l
    → IsSorted cmp l
sort_lists-IsSorted cmp t s m l h = elim (Option-cases (Map.get s m)) [
  | inl e ↦ ground (arith, get-sort_lists cmp s m)
  | inr (k, e) ↦
      subst (IsSorted cmp) (some_inj (sort_by cmp k) l (ground (arith, e, get-sort_lists cmp s m)))
        (sort_by-IsSorted cmp t k)
]

-- After a builder is inserted, the list of every system is sorted: the higher score first, and
-- among equal scores the fewer jobs.
pub insert_machine-IsSorted :
    (fl : Floats32) (f : MachineSortFn) (m : Machine) (ms : Machines) (s : Text) (l : List ℕ)
    → Map.get s (insert_machine fl f m ms).0.by_system ≡ some l
    → IsSorted (cmp_machine fl f (insert_machine fl f m ms).0.machine) l
unfolding insert_machine sort reconstruct_supported_features
insert_machine-IsSorted fl f m ms s l h =
    let machine = (set_machine ms ms.next m).machine in
    sort_lists-IsSorted (cmp_machine fl f machine) (cmp_machine-IsTotal fl f machine) s
      (push_systems ms.next m.join.systems ms.by_system) l h

find-none : (p : ℕ → Bool) (l : List ℕ) → find p l ≡ none → All (λ b. p b ≡ false) l
find-none p [] h = tt
find-none p (b ∷ l) h = elim (Bool-cases (p b)) [
  | inl e ↦ ground (arith, e)
  | inr e ↦ (e, find-none p l (ground arith))
]

-- What the answer of `get_machine_for_system` says of the list of the system.
abbrev pub IsBest :
    Floats32 → MachineSortFn → ℕ → List Text → MachineFreeFn → Machines → List ℕ → Option ℕ → Type 0
IsBest fl f now required free ms l none =
    All (λ b. qualifies fl now free required (ms.machine b) ≡ false) l
IsBest fl f now required free ms l (some a) =
    (qualifies fl now free required (ms.machine a) ≡ true)
    × All
        (λ b.
          qualifies fl now free required (ms.machine b) ≡ true
          → cmp_machine fl f ms.machine a b ≢ Ordering.gt)
        l

get_machine-find :
    (fl : Floats32) (now : ℕ) (system : Text) (required : List Text) (free : MachineFreeFn)
    (ms : Machines) (l : List ℕ)
    → text_eq system builtin ≡ false
    → Map.get system ms.by_system ≡ some l
    → (get_machine_for_system fl now system required (some free) ms).1
      ≡ find (λ b. qualifies fl now free required (ms.machine b)) l
unfolding get_machine_for_system
get_machine-find fl now system required free ms l other h =
    rw (other, h, get_machine_for_system) (find_machine-first fl now free required l ms)

cmp_machine_refl :
    (fl : Floats32) (f : MachineSortFn) (machine : ℕ → Machine) (b : ℕ)
    → cmp_machine fl f machine b b ≢ Ordering.gt
cmp_machine_refl fl f machine b = ground (arith, (cmp_machine-IsTotal fl f machine).flip b b)

-- For a system other than `builtin` whose list is sorted, `get_machine_for_system` with a free
-- function gives a builder that has capacity and suits the features, and no builder of the list
-- that has both stands before it in the order. If it gives none, no builder of the list has both.
pub get_machine_for_system-IsBest :
    (fl : Floats32) (f : MachineSortFn) (now : ℕ) (system : Text) (required : List Text)
    (free : MachineFreeFn) (ms : Machines) (l : List ℕ)
    → text_eq system builtin ≡ false
    → Map.get system ms.by_system ≡ some l
    → IsSorted (cmp_machine fl f ms.machine) l
    → IsBest fl f now required free ms l
        (get_machine_for_system fl now system required (some free) ms).1
get_machine_for_system-IsBest fl f now system required free ms l other h sorted =
    let test : ℕ → Bool = λ b. qualifies fl now free required (ms.machine b) in
    subst (IsBest fl f now required free ms l)
      (sym (get_machine-find fl now system required free ms l other h))
      (elim (Option-cases (find test l)) [
        | inl e ↦ subst (IsBest fl f now required free ms l) (sym e) (find-none test l e)
        | inr (a, e) ↦ subst (IsBest fl f now required free ms l) (sym e) (
          find-test test l a e,
          find-best (cmp_machine fl f ms.machine) test l a (cmp_machine_refl fl f ms.machine) sorted
              e,
        )
      ])
