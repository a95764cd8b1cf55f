-- ===== src/State/Channel/Tests.antt =====
-- The channel: the theorem at some calls.
use hydra_queue_runner.Base.{ℕ, ◌≡◌, refl, List, [], ◌∷◌, ◌++◌}
use hydra_queue_runner.State.Channel.{recv_many}
use hydra_queue_runner.State.Channel.Fifo.{Event, run, put_in, run-put_in}

abbrev two : List ℕ
two = 1 ∷ 2 ∷ []

-- A call for no messages takes none, however many there are, and so it waits for ever.
recv_many_zero_test : recv_many 0 two ≡ (two, [])
unfolding recv_many
recv_many_zero_test = refl

abbrev calls : List (Event ℕ)
calls =
    Event.sent 1
    ∷ Event.loaded (2 ∷ 3 ∷ [])
    ∷ Event.received
    ∷ Event.received_many 5
    ∷ Event.sent 4
    ∷ []

run-put_in_example : (run calls []).1 ++ (run calls []).0 ≡ put_in calls
run-put_in_example = run-put_in calls []
