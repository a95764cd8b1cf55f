-- ===== src/State/Runner/Hoare.antt =====
-- How an action of the runner ends, as a rule for each of its parts. No code is modelled here.
use hydra_queue_runner.State.Runner.{
  ◌>>=◌, ok, err, out_of_fuel, Outcome, Runner, Action, modify, pure, get, or_fail,
  begin_transaction, execute, commit, execute_all, Failure, Env, Statement, Text, ignore_failure,
}
use hydra_queue_runner.Base.{
  inl, inr, Option, none, some, List, [], ◌∷◌, ◌++◌, Bool-cases, ℕ, Bool, if◌then◌else◌, true,
  arith, ◌≡◌, refl,
}
use hydra_queue_runner.State.Statement.{Statement}
use hydra_queue_runner.State.Runner.Finish.{write_outputs, finish_build_step}
use hydra_queue_runner.Base.Text.{Text}
use hydra_queue_runner.State.Remote.{RemoteBuild}
use mathlib.Core.Bool.{true, false}

-- `Q` of the value and the state, `E` of the state after a failure.
abbrev pub Ends : {A : Type 0} → (A → Runner → Type 0) → (Runner → Type 0) → Outcome A → Type 0
Ends Q E (ok a r) = Q a r
Ends Q E (err e r) = E r
Ends Q E out_of_fuel = Unit {0}

pub bind-Ends :
    {A B : Type 0} (Q : A → Runner → Type 0) (Q' : B → Runner → Type 0) (E : Runner → Type 0)
    (m : Action A) (f : A → Action B) (r : Runner)
    → Ends Q E (m r)
    → ((a : A) (r' : Runner) → Q a r' → Ends Q' E (f a r'))
    → Ends Q' E ((m >>= f) r)
unfolding ◌>>=◌
bind-Ends {A = A} Q Q' E m f r h k = by_end (m r) h
  where
    by_end :
        (o : Outcome A)
        → Ends Q E o
        → Ends Q' E (elim o [ ok a r' ↦ f a r' | err e r' ↦ err e r' | out_of_fuel ↦ out_of_fuel ])
    by_end (ok a r') q = k a r' q
    by_end (err e r') q = q
    by_end out_of_fuel q = tt

pub weaken-Ends :
    {A : Type 0} (Q Q' : A → Runner → Type 0) (E E' : Runner → Type 0) (o : Outcome A)
    → ((a : A) (r : Runner) → Q a r → Q' a r)
    → ((r : Runner) → E r → E' r)
    → Ends Q E o
    → Ends Q' E' o
weaken-Ends Q Q' E E' (ok a r) q e h = q a r h
weaken-Ends Q Q' E E' (err _ r) q e h = e r h
weaken-Ends Q Q' E E' out_of_fuel q e h = tt

-- An error that is dropped: what holds of every ending holds afterwards.
pub ignore_failure-Ends :
    (P : Runner → Type 0) (m : Action (Unit {0})) (r : Runner)
    → Ends (λ _. P) P (m r)
    → Ends (λ _. P) (λ _. ⊥) (ignore_failure m r)
unfolding ignore_failure
ignore_failure-Ends P m r h = by_end (m r) h
  where
    by_end :
        (o : Outcome (Unit {0}))
        → Ends (λ _. P) P o
        → Ends {A = Unit {0}}
            (λ _. P)
            (λ _. ⊥)
            (elim o [ ok _ r' ↦ ok tt r' | err _ r' ↦ ok tt r' | out_of_fuel ↦ out_of_fuel ])
    by_end (ok _ s) q = q
    by_end (err _ s) q = q
    by_end out_of_fuel q = tt

-- A relation between the states before and after that does not see open transactions, and that the
-- growth of the database respects.
pub record Framing (R : Runner → Runner → Type 0) : Type 0 where
  pub same : (r : Runner) → R r r
  pub trans : (r s t : Runner) → R r s → R s t → R r t
  pub open_tx : (r : Runner) (tx : List Statement) → R r (record r { tx = tx })
  pub grow : (r : Runner) (more tx : List Statement) → R r (record r { db = r.db ++ more; tx = tx })

unfoldable pub is_out : {A : Type 0} → Outcome A → Bool
is_out (ok _ _) = false
is_out (err _ _) = false
is_out out_of_fuel = true

pub bind-is_out :
    {A B : Type 0} (m : Action A) (f : A → Action B) (r : Runner)
    → is_out (m r) ≡ false
    → ((a : A) (s : Runner) → m r ≡ ok a s → is_out (f a s) ≡ false)
    → is_out ((m >>= f) r) ≡ false
unfolding ◌>>=◌ is_out
bind-is_out {A = A} m f r h k = by_end (m r) refl h
  where
    by_end :
        (o : Outcome A)
        → m r ≡ o
        → is_out o ≡ false
        → is_out (elim o [ ok a r' ↦ f a r' | err e r' ↦ err e r' | out_of_fuel ↦ out_of_fuel ])
          ≡ false
    by_end (ok a s) e q = k a s e
    by_end (err _ s) e q = refl
    by_end out_of_fuel e q = q

-- The action returns or fails, and the states before and after are related in both cases.
pub record Moves (R : Runner → Runner → Type 0) {A : Type 0} (m : Action A) : Type 0 where
  pub run : (r : Runner) → Ends (λ _ r'. R r r') (R r) (m r)
  pub ends : (r : Runner) → is_out (m r) ≡ false

-- The action keeps a property of the state, also when it fails.
pub record Keeps (P : Runner → Type 0) {A : Type 0} (m : Action A) : Type 0 where
  pub run : (r : Runner) → P r → Ends (λ _. P) P (m r)

pub bind-Keeps :
    {P : Runner → Type 0} {A B : Type 0} {m : Action A} {f : A → Action B}
    → Keeps P m
    → ((a : A) → Keeps P (f a))
    → Keeps P (m >>= f)
bind-Keeps {P = P} {m = m} {f = f} hm hf = record {
  run = λ r h. bind-Ends (λ _. P) (λ _. P) P m f r (hm.run r h) λ a s. (hf a).run s;
}

pub frame-Keeps :
    {P : Runner → Type 0} (R : Runner → Runner → Type 0) {A : Type 0} {m : Action A}
    → ((r s : Runner) → R r s → P r → P s)
    → Moves R m
    → Keeps P m
frame-Keeps {P = P} R {m = m} step h = record {
  run = λ r k.
      weaken-Ends (λ _ s. R r s) (λ _. P) (R r) P (m r) (λ _ s f. step r s f k)
        (λ s f. step r s f k) (h.run r);
}

module _ {R : Runner → Runner → Type 0} ⦃p : Framing R⦄ where
  pub bind-Moves :
      {A B : Type 0} {m : Action A} {f : A → Action B}
      → Moves R m
      → ((a : A) → Moves R (f a))
      → Moves R (m >>= f)
  bind-Moves {A = A} {B = B} {m = m} {f = f} hm hf = record {
    run = λ r.
        bind-Ends (λ _. R r) (λ _. R r) (R r) m f r (hm.run r)
          λ a r' fr.
            weaken-Ends (λ _. R r') (λ _. R r) (R r') (R r) (f a r') (λ b s g. p.trans r r' s fr g)
              (λ s g. p.trans r r' s fr g) ((hf a).run r');
    ends = λ r. bind-is_out m f r (hm.ends r) λ a s e. (hf a).ends s;
  }

  pub modify-Moves : (f : Runner → Runner) → ((r : Runner) → R r (f r)) → Moves R (modify f)
  unfolding modify is_out
  modify-Moves f h = record { run = h; ends = λ r. refl }

  pub pure-Moves : {A : Type 0} (a : A) → Moves R (pure a)
  unfolding pure is_out
  pure-Moves a = record { run = p.same; ends = λ r. refl }

  pub get-Moves : Moves R get
  unfolding get is_out
  get-Moves = record { run = p.same; ends = λ r. refl }

  pub or_fail-Moves : {A : Type 0} (e : Failure) (o : Option A) → Moves R (or_fail e o)
  unfolding or_fail is_out
  or_fail-Moves e none = record { run = p.same; ends = λ r. refl }
  or_fail-Moves e (some a) = record { run = p.same; ends = λ r. refl }

  pub begin_transaction-Moves : (env : Env) → Moves R (begin_transaction env)
  unfolding begin_transaction is_out
  begin_transaction-Moves env = record {
    run = λ r. elim (Bool-cases (env.connects r.db)) [
      | inl c ↦ rw c (p.open_tx r [])
      | inr c ↦ rw c (p.same r)
    ];
    ends = λ r. ground arith;
  }

  pub execute-Moves : (env : Env) (s : Statement) → Moves R (execute env s)
  unfolding execute is_out
  execute-Moves env s = record {
    run = λ r. elim (Bool-cases (env.accepts r.db r.tx s)) [
      | inl c ↦ rw c (p.open_tx r (r.tx ++ s ∷ []))
      | inr c ↦ rw c (p.same r)
    ];
    ends = λ r. ground arith;
  }

  pub commit-Moves : (env : Env) → Moves R (commit env)
  unfolding commit is_out
  commit-Moves env = record {
    run = λ r. elim (Bool-cases (env.commits r.db r.tx)) [
      | inl c ↦ rw c (p.grow r r.tx [])
      | inr c ↦ rw c (p.same r)
    ];
    ends = λ r. ground arith;
  }

  pub execute_all-Moves : (env : Env) (ss : List Statement) → Moves R (execute_all env ss)
  unfolding execute_all
  execute_all-Moves env [] = pure-Moves tt
  execute_all-Moves env (s ∷ ss) = bind-Moves (execute-Moves env s) λ _. execute_all-Moves env ss

  pub if-Moves :
      {A : Type 0} (c : Bool) {m k : Action A}
      → Moves R m
      → Moves R k
      → Moves R (if c then m else k)
  if-Moves true hm hk = hm
  if-Moves false hm hk = hk

  pub option-Moves :
      {A B : Type 0} (o : Option A) (m : Action B) (f : A → Action B)
      → Moves R m
      → ((a : A) → Moves R (f a))
      → Moves R (elim o [ none ↦ m | some a ↦ f a ])
  option-Moves none m f hm hf = hm
  option-Moves (some a) m f hm hf = hf a

  pub ignore_failure-Moves : {m : Action (Unit {0})} → Moves R m → Moves R (ignore_failure m)
  unfolding ignore_failure is_out
  ignore_failure-Moves {m = m} h = record {
    run = λ r. by_end r (m r) (h.run r);
    ends = λ r. kept (m r) (h.ends r);
  }
    where
      by_end :
          (r : Runner) (o : Outcome (Unit {0}))
          → Ends (λ _ r'. R r r') (R r) o
          → Ends {A = Unit {0}}
              (λ _ r'. R r r')
              (R r)
              (elim o [ ok _ r' ↦ ok tt r' | err _ r' ↦ ok tt r' | out_of_fuel ↦ out_of_fuel ])
      by_end r (ok _ r') q = q
      by_end r (err _ r') q = q
      by_end r out_of_fuel q = tt

      kept :
          (o : Outcome (Unit {0}))
          → is_out o ≡ false
          → is_out {A = Unit {0}}
              (elim o [ ok _ r' ↦ ok tt r' | err _ r' ↦ ok tt r' | out_of_fuel ↦ out_of_fuel ])
            ≡ false
      kept (ok _ r') q = refl
      kept (err _ r') q = refl
      kept out_of_fuel q = q

  pub write_outputs-Moves :
      (env : Env) (build_id step_nr : ℕ) → Moves R (write_outputs env build_id step_nr)
  unfolding write_outputs
  write_outputs-Moves env build_id step_nr = bind-Moves get-Moves λ r.
      bind-Moves (or_fail-Moves _ _) λ path. option-Moves path _ _ (pure-Moves tt) λ p.
        bind-Moves (or_fail-Moves _ _)
          λ drv. option-Moves drv _ _ (pure-Moves tt) λ d. execute_all-Moves env _

  pub finish_build_step-Moves :
      (env : Env) (build_id step_nr : ℕ) (res : RemoteBuild) (machine : Option Text)
      → Moves R (finish_build_step env build_id step_nr res machine)
  unfolding finish_build_step
  finish_build_step-Moves env build_id step_nr res machine =
      bind-Moves (begin_transaction-Moves env) λ _. bind-Moves (or_fail-Moves _ _) λ start_time.
        bind-Moves (or_fail-Moves _ _) λ stop_time. bind-Moves (execute-Moves env _) λ _.
          bind-Moves (execute-Moves env _) λ _.
            bind-Moves (if-Moves _ (write_outputs-Moves env build_id step_nr) (pure-Moves tt))
              λ _. commit-Moves env
