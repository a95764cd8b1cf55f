-- ===== src/State/Jobsets/Shares.antt =====
-- Shares that the database rejects never reach a jobset.
use hydra_queue_runner.Base.Map
use hydra_queue_runner.State.Jobsets.{name_Eq, name_eq_iff}
use hydra_queue_runner.Base.{
  ℕ, ◌<◌, ◌≡◌, subst, inl, inr, some, arith, ltb, ltb→lt, Bool-cases, Option-cases, some_inj, List,
  ◌==◌, ◌∷◌, [], suc,
}
use hydra_queue_runner.State.Heap.{Heap, JobsetRef}
use hydra_queue_runner.State.Jobset.{set_shares, Jobset}
use hydra_queue_runner.State.Jobsets.{
  try_shares, two_31, modify_jobset, handle_change, create_jobset, set_jobset, JobsetRows,
  JobsetRow, Text, Jobsets, update_shares, read_jobset, name_eq_iff,
}
use hydra_queue_runner.Base.Words.{two_31}
use hydra_queue_runner.Base.Text.{Text}

-- The shares of every jobset are an `i32` that is not negative.
abbrev pub HasShares : Heap → Type 0
HasShares h = (a : ℕ) (j : Jobset) → h.jobset a ≡ some j → j.shares < two_31

set_shares-lt :
    (j : Jobset) (shares : ℕ) (j' : Jobset) → set_shares j shares ≡ some j' → j'.shares < two_31
unfolding set_shares
set_shares-lt j shares j' e = elim (Bool-cases (ltb shares two_31)) [
  | inl small ↦
      subst (λ (x : Jobset). x.shares < two_31)
        (some_inj (record j { shares = shares }) j' (ground (arith, small)))
        (ltb→lt shares two_31 small)
  | inr big ↦ absurd (ground (arith, big))
]

try_shares-lt :
    (j : Jobset) (shares : ℕ) → j.shares < two_31 → (try_shares shares j).shares < two_31
unfolding try_shares
try_shares-lt j shares h = elim (Option-cases (set_shares j shares)) [
  | inl failed ↦ ground (arith, failed)
  | inr (j', e) ↦ ground (arith, e, set_shares-lt j shares j' e)
]

modify_jobset-HasShares :
    (h : Heap) (r : JobsetRef) (f : Jobset → Jobset)
    → ((j : Jobset) → j.shares < two_31 → (f j).shares < two_31)
    → HasShares h
    → HasShares (modify_jobset h r f)
unfolding modify_jobset set_jobset
modify_jobset-HasShares h r f keeps s a j e = elim (Option-cases (h.jobset r.addr)) [
  | inl gone ↦ s a j (ground (arith, gone))
  | inr (x, live) ↦ elim (Bool-cases (r.addr == a)) [
    | inl here ↦
        subst (λ (y : Jobset). y.shares < two_31) (some_inj (f x) j (ground (arith, live, here)))
          (keeps x (s r.addr x live))
    | inr other ↦ s a j (ground (arith, live, other))
  ]
]

-- A change of the shares in the database, whatever numbers the rows hold, leaves every jobset with a
-- number of shares that is not negative as an `i32`, if this was so before.
pub handle_change-HasShares :
    (rows : List JobsetRow) (js : Jobsets)
    → HasShares js.heap
    → HasShares (handle_change rows js).heap
unfolding handle_change
handle_change-HasShares rows js s = each rows js.heap s
  where
    each :
        (rows : List JobsetRow) (h : Heap) → HasShares h → HasShares (update_shares rows js.inner h)
    each [] h s = s
    each (row ∷ rows) h s = elim (Option-cases (Map.get (row.project, row.name) js.inner)) [
      | inl unknown ↦ rw (unknown, update_shares) (each rows h s)
      | inr (r, known) ↦
          rw (known, update_shares)
            (each rows (modify_jobset h r (try_shares row.schedulingshares)) (
              modify_jobset-HasShares h r (try_shares row.schedulingshares)
                (λ j. try_shares-lt j row.schedulingshares) s))
    ]

create_jobset-get :
    (rows : JobsetRows) (id : ℕ) (project name : Text) (js js' : Jobsets) (r : JobsetRef)
    → create_jobset rows id project name js ≡ some (js', r)
    → Map.get (project, name) js'.inner ≡ some r
unfolding create_jobset
create_jobset-get rows id project name js js' r e =
    elim (Option-cases (Map.get (project, name) js.inner)) [
      | inr (r0, known) ↦
          let same = some_inj (js, r0) (js', r) (ground (arith, known)) in
          subst (λ (x : Jobsets × JobsetRef). Map.get (project, name) x.0.inner ≡ some x.1) same
            known
      | inl unknown ↦ elim (Option-cases (read_jobset rows id project name)) [
        | inl failed ↦ absurd (ground (arith, unknown, failed))
        | inr (j, read) ↦
            let r0 : JobsetRef = record {
              addr = js.next;
              id = id;
              project_name = project;
              name = name;
            } in
            let made : Jobsets = record {
              inner = Map.insert (project, name) r0 js.inner;
              heap = set_jobset js.heap js.next j;
              next = suc js.next;
            } in
            subst (λ (x : Jobsets × JobsetRef). Map.get (project, name) x.0.inner ≡ some x.1)
              (some_inj (made, r0) (js', r) (ground (arith, unknown, read)))
              (ground (
                arith,
                Map.get-insert (project, name) (project, name) r0 js.inner,
                name_eq_iff (project, name) (project, name),
              ))
      ]
    ]

-- A jobset is read from the database once: when `create` has returned a jobset for a project and a
-- name, a later call for these returns the same one, whatever the database says by then, and leaves
-- the registry as it is.
pub create_jobset_again :
    (rows rows' : JobsetRows) (id id' : ℕ) (project name : Text) (js js' : Jobsets) (r : JobsetRef)
    → create_jobset rows id project name js ≡ some (js', r)
    → create_jobset rows' id' project name js' ≡ some (js', r)
unfolding create_jobset
create_jobset_again rows rows' id id' project name js js' r e =
    ground (arith, create_jobset-get rows id project name js js' r e)
