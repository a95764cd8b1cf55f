-- ===== src/State/Jobsets.antt =====
-- `Jobsets` of queue-runner/src/state/jobset.rs: the registry of jobsets by project and name. The
-- rows of the database are arguments; numbers of rows are `i32` patterns.
pub mod Shares
mod Tests
use hydra_queue_runner.Base.Map
use hydra_queue_runner.Base.Map.{Map}
use hydra_queue_runner.Base.{
  ℕ, zero, suc, ◌+◌, ◌-◌, ◌*◌, ◌/◌, ◌%◌, ◌^◌, ◌≤◌, ◌<◌, min, max, compare, Ordering, ◌≡◌, refl, sym,
  ap, subst, ◌∙◌, ◌≡⟨◌⟩◌, ◌∎, ◌≢◌, ◌↔◌, ◌⊎◌, inl, inr, Bool, true, false, not, ◌&&◌, ◌||◌, Option,
  none, some, List, [], ◌∷◌, ◌++◌, map, flat_map, arith, ltb, leb, ◌==◌, if◌then◌else◌, is_some,
  unwrap_or, ltb→lt, ==_iff, Bool-cases, Option-cases, length, length-append, take, drop,
  take-append-drop, length-take, retain, any, all, find, count_if, All, length-retain, All-append,
  In, any-append, some_inj, find-test, All-retain,
}
use hydra_queue_runner.Base.Text.{Text, text_eq, text_eq_iff}
use hydra_queue_runner.State.Heap.{JobsetRef, Heap}
use hydra_queue_runner.State.Jobset.{prune_steps, add_step, new_jobset, set_shares, Jobset}
use hydra_queue_runner.Base.Words.{two_31, two_32, two_64}

abbrev pub JobsetName : Type 0
JobsetName = Text × Text

unfoldable pub name_eq : JobsetName → JobsetName → Bool
name_eq a b = text_eq a.0 b.0 && text_eq a.1 b.1

pub name_eq_iff : (a b : JobsetName) → (name_eq a b ≡ true) ↔ (a ≡ b)
unfolding name_eq
name_eq_iff a b = ground (arith, text_eq_iff a.0 b.0, text_eq_iff a.1 b.1)

instance abbrev pub name_Eq : Map.Eq JobsetName
name_Eq = record { beq = name_eq; beq_iff = name_eq_iff }

pub record Jobsets : Type 0 where
  pub inner : Map JobsetName JobsetRef
  pub heap : Heap
  pub next : ℕ

unfoldable pub set_jobset : Heap → ℕ → Jobset → Heap
set_jobset h a j = record h { jobset = λ b. if a == b then some j else h.jobset b }

unfoldable pub modify_jobset : Heap → JobsetRef → (Jobset → Jobset) → Heap
unfolding set_jobset
modify_jobset h r f = elim (h.jobset r.addr) [ none ↦ h | some j ↦ set_jobset h r.addr (f j) ]

-- `len` and `is_empty`.
unfoldable pub jobsets_len : Jobsets → ℕ
jobsets_len js = length js.inner

unfoldable pub jobsets_is_empty : Jobsets → Bool
jobsets_is_empty js = length js.inner == 0

-- The loop of `prune`; the log line about it is not modelled.
unfoldable pub prune_each : ℕ → Map JobsetName JobsetRef → Heap → Heap
unfolding modify_jobset prune_steps
prune_each now [] h = h
prune_each now ((_, r) ∷ rest) h = prune_each now rest (modify_jobset h r (prune_steps now))

unfoldable pub prune : ℕ → Jobsets → Jobsets
unfolding prune_each
prune now js = record js { heap = prune_each now js.inner js.heap }

-- What the database says about a jobset; an outer `none` is an error of the database.
pub record JobsetRows : Type 0 where
  pub scheduling_shares : ℕ → Option (Option ℕ)
  pub build_steps : ℕ → Option (List (Option ℕ × Option ℕ))

-- `i64::from` of an `i32`, and the difference of two.
unfoldable pub widen : ℕ → ℕ
widen v = if ltb v two_31 then v else v + (two_64 - two_32)

unfoldable pub sub32 : ℕ → ℕ → ℕ
sub32 a b = (a + (two_32 - b % two_32)) % two_32

-- The loop over the build steps: those without a start or a stop time are passed over.
unfoldable pub add_rows : List (Option ℕ × Option ℕ) → Jobset → Jobset
unfolding add_step widen sub32
add_rows [] j = j
add_rows ((none, _) ∷ rest) j = add_rows rest j
add_rows ((some start, none) ∷ rest) j = add_rows rest j
add_rows ((some start, some stop) ∷ rest) j =
    add_rows rest (add_step j (widen start) (widen (sub32 stop start)))

-- A new jobset with its shares and its recent steps; `none` is an error.
unfoldable pub read_jobset : JobsetRows → ℕ → Text → Text → Option Jobset
unfolding new_jobset set_shares add_rows
read_jobset rows id project name = elim (rows.scheduling_shares id) [
  | none ↦ none
  | some found ↦ elim found [
    | none ↦ none
    | some shares ↦ elim (set_shares (new_jobset id project name) shares) [
      | none ↦ none
      | some j ↦ elim (rows.build_steps id) [ none ↦ none | some steps ↦ some (add_rows steps j) ]
    ]
  ]
]

-- `Jobsets::create`; `none` is an error, and the registry stays.
unfoldable pub create_jobset : JobsetRows → ℕ → Text → Text → Jobsets → Option (Jobsets × JobsetRef)
unfolding read_jobset set_jobset
create_jobset rows id project name js = elim (Map.get (project, name) js.inner) [
  | some r ↦ some (js, r)
  | none ↦ elim (read_jobset rows id project name) [
    | none ↦ none
    | some j ↦
        let r : JobsetRef = record {
          addr = js.next;
          id = id;
          project_name = project;
          name = name;
        } in
        some (
          record {
            inner = Map.insert (project, name) r js.inner;
            heap = set_jobset js.heap js.next j;
            next = suc js.next;
          },
          r,
        )
  ]
]

-- The row `Jobset` of crates/db/src/models.rs.
pub record JobsetRow : Type 0 where
  pub project : Text
  pub name : Text
  pub schedulingshares : ℕ

-- `set_shares`, where an error is logged and the jobset stays.
unfoldable pub try_shares : ℕ → Jobset → Jobset
unfolding set_shares
try_shares shares j = unwrap_or (set_shares j shares) j

-- The loop of `handle_change` over the rows of the database.
unfoldable pub update_shares : List JobsetRow → Map JobsetName JobsetRef → Heap → Heap
unfolding modify_jobset try_shares
update_shares [] inner h = h
update_shares (row ∷ rows) inner h =
    update_shares rows inner (elim (Map.get (row.project, row.name) inner) [
      | none ↦ h
      | some r ↦ modify_jobset h r (try_shares row.schedulingshares)
    ])

unfoldable pub handle_change : List JobsetRow → Jobsets → Jobsets
unfolding update_shares
handle_change rows js = record js { heap = update_shares rows js.inner js.heap }
