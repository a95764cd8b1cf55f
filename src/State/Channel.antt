-- ===== src/State/Channel.antt =====
-- queue-runner/src/state/inspectable_channel.rs: a queue of messages. A call of `recv` or `recv_many`
-- that finds nothing waits for a notification and looks again, so what is modelled of it is one look:
-- no message means that it goes on waiting. Waking the waiting tasks is the work of the runtime.
pub mod Fifo
mod Tests
use hydra_queue_runner.Base.{
  ℕ, zero, suc, ◌+◌, ◌-◌, ◌*◌, ◌/◌, ◌%◌, ◌^◌, ◌≤◌, ◌<◌, min, max, compare, Ordering, ◌≡◌, refl, sym,
  ap, subst, ◌∙◌, ◌≡⟨◌⟩◌, ◌∎, ◌≢◌, ◌↔◌, ◌⊎◌, inl, inr, Bool, true, false, not, ◌&&◌, ◌||◌, Option,
  none, some, List, [], ◌∷◌, ◌++◌, map, flat_map, arith, ltb, leb, ◌==◌, if◌then◌else◌, is_some,
  unwrap_or, ltb→lt, ==_iff, Bool-cases, Option-cases, length, length-append, take, drop,
  take-append-drop, length-take, retain, any, all, find, count_if, All, length-retain, All-append,
  In, any-append, some_inj, find-test, All-retain,
}

unfoldable pub with_capacity {ℓ} : {A : Type ℓ} → List A
with_capacity = []

unfoldable pub load_vec_into {ℓ} : {A : Type ℓ} → List A → List A → List A
load_vec_into msgs queue = queue ++ msgs

unfoldable pub send {ℓ} : {A : Type ℓ} → A → List A → List A
send msg queue = queue ++ msg ∷ []

-- The queue that is left, and the message.
unfoldable pub recv {ℓ} : {A : Type ℓ} → List A → List A × Option A
recv [] = ([], none)
recv (m ∷ queue) = (queue, some m)

-- The loop `for _ in 0..available` with the messages that were taken so far.
unfoldable pub pop_many {ℓ} : {A : Type ℓ} → ℕ → List A → List A → List A × List A
pop_many zero queue messages = (queue, messages)
pop_many (suc n) [] messages = pop_many n [] messages
pop_many (suc n) (m ∷ queue) messages = pop_many n queue (messages ++ m ∷ [])

unfoldable pub recv_many {ℓ} : {A : Type ℓ} → ℕ → List A → List A × List A
unfolding pop_many
recv_many count queue = pop_many (min count (length queue)) queue []

unfoldable pub inspect {ℓ} : {A : Type ℓ} → List A → List A
inspect queue = queue
