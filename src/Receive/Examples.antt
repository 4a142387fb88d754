-- ===== src/Receive/Examples.antt =====
-- The Receive matcher on a concrete channel.
use gomega.Base.{ℕ, ◌≡◌, refl, false, none, List, [], ◌∷◌}
use gomega.Receive.{
  assigns, refuses, ReceiveArg, pointer, Receiver, match_channel, receive_may_change,
}
use gomega.Receive.Steps.{Event, sends, closes, matches, events, new_history}
use gomega.Receive.Settled.{receive_may_change-final}

abbrev to_number : ReceiveArg ℕ
to_number = pointer (λ v. assigns v) (λ v. refuses)

abbrev new_receiver : Receiver ℕ
new_receiver = record { received_value = none; channel_closed = false; target = none }

abbrev session : List (Event ℕ)
session = sends 4 ∷ sends 5 ∷ matches ∷ closes ∷ matches ∷ matches ∷ []

-- Both numbers are taken, and the last Match sees the closed channel.
session_taken : (events to_number session (new_history new_receiver)).taken ≡ 4 ∷ 5 ∷ []
unfolding match_channel
session_taken = refl

receive_may_change-final_example :
    ((events to_number (matches ∷ []) (events to_number session (new_history new_receiver))).taken
      ≡ (events to_number session (new_history new_receiver)).taken)
    × ((match_channel to_number
          (events to_number (matches ∷ []) (events to_number session (new_history new_receiver))).ch
          (events to_number
            (matches ∷ [])
            (events to_number session (new_history new_receiver))).matcher).success
        ≡ false)
unfolding match_channel receive_may_change
receive_may_change-final_example =
    receive_may_change-final to_number session (matches ∷ []) new_receiver refl refl
