-- ===== src/State/Channel/Fifo.antt =====
-- The channel delivers what was sent, once and in order.
use hydra_queue_runner.Base.{
  ℕ, zero, suc, min, ◌≡◌, refl, sym, ap, ◌∙◌, none, some, List, [], ◌∷◌, ◌++◌, length,
}
use hydra_queue_runner.State.Channel.{load_vec_into, send, recv, pop_many, recv_many}

-- One call that takes effect.
pub data Event {ℓ} (A : Type ℓ) : Type ℓ where
  sent : A → Event A
  loaded : List A → Event A
  received : Event A
  received_many : ℕ → Event A

module _ {ℓ} {A : Type ℓ} where
  -- The queue after some calls, and the messages that they returned, the first first.
  unfoldable pub run : List (Event A) → List A → List A × List A
  unfolding send load_vec_into recv recv_many
  run [] queue = (queue, [])
  run (Event.sent m ∷ es) queue = run es (send m queue)
  run (Event.loaded ms ∷ es) queue = run es (load_vec_into ms queue)
  run (Event.received ∷ es) queue =
      let one = recv queue in
      let rest = run es one.0 in (rest.0, elim one.1 [ none ↦ rest.1 | some m ↦ m ∷ rest.1 ])
  run (Event.received_many n ∷ es) queue =
      let many = recv_many n queue in let rest = run es many.0 in (rest.0, many.1 ++ rest.1)

  -- The messages that the calls put in.
  unfoldable pub put_in : List (Event A) → List A
  put_in [] = []
  put_in (Event.sent m ∷ es) = m ∷ put_in es
  put_in (Event.loaded ms ∷ es) = ms ++ put_in es
  put_in (_ ∷ es) = put_in es

  append_assoc : (xs ys zs : List A) → (xs ++ ys) ++ zs ≡ xs ++ (ys ++ zs)
  append_assoc [] ys zs = refl
  append_assoc (x ∷ xs) ys zs = ap (λ (t : List A). x ∷ t) (append_assoc xs ys zs)

  append_nil : (xs : List A) → xs ++ [] ≡ xs
  append_nil [] = refl
  append_nil (x ∷ xs) = ap (λ (t : List A). x ∷ t) (append_nil xs)

  pop_many_split :
      (n : ℕ) (queue messages : List A)
      → (pop_many n queue messages).1 ++ (pop_many n queue messages).0 ≡ messages ++ queue
  unfolding pop_many
  pop_many_split zero queue messages = refl
  pop_many_split (suc n) [] messages = pop_many_split n [] messages
  pop_many_split (suc n) (m ∷ queue) messages =
      pop_many_split n queue (messages ++ m ∷ []) ∙ append_assoc messages (m ∷ []) queue

  recv_many_split :
      (n : ℕ) (queue : List A) → (recv_many n queue).1 ++ (recv_many n queue).0 ≡ queue
  unfolding recv_many
  recv_many_split n queue = pop_many_split (min n (length queue)) queue []

  -- Whatever calls are made in whatever order: the messages that were delivered, followed by those
  -- that are still in the queue, are those that were in it at the start followed by those that were
  -- sent, so each message is delivered at most once and in the order of sending.
  pub run-put_in :
      (es : List (Event A)) (queue : List A)
      → (run es queue).1 ++ (run es queue).0 ≡ queue ++ put_in es
  unfolding run put_in send load_vec_into recv
  run-put_in [] queue = sym (append_nil queue)
  run-put_in (Event.sent m ∷ es) queue =
      run-put_in es (queue ++ m ∷ []) ∙ append_assoc queue (m ∷ []) (put_in es)
  run-put_in (Event.loaded ms ∷ es) queue =
      run-put_in es (queue ++ ms) ∙ append_assoc queue ms (put_in es)
  run-put_in (Event.received ∷ es) [] = run-put_in es []
  run-put_in (Event.received ∷ es) (m ∷ queue) = ap (λ (t : List A). m ∷ t) (run-put_in es queue)
  run-put_in (Event.received_many n ∷ es) queue =
      let (left, got) = recv_many n queue in
      append_assoc got (run es left).1 (run es left).0
      ∙ ap (λ t. got ++ t) (run-put_in es left)
      ∙ sym (append_assoc got left (put_in es))
      ∙ ap (λ t. t ++ put_in es) (recv_many_split n queue)
