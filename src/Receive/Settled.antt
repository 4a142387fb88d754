-- ===== src/Receive/Settled.antt =====
-- What the oracle of Receive promises.
use mathlib.Core.Path.{subst}
use mathlib.Core.List.{append-nil}
use gomega.Base.{
  ◌≡◌, ◌⊎◌, inl, inr, refl, sym, ap, ◌∙◌, Bool, true, false, List, [], ◌∷◌, ◌++◌, if◌then◌else◌,
  arith, Bool-cases,
}
use gomega.Receive.{
  Assignment, assigns, refuses, panics, Channel, ReceiveArg, channel, Receiver, select, on_value,
  on_selected, is_no_pointer, assigned, match_channel, receive_may_change, no_arg, sub_matcher,
  no_pointer, pointer,
}
use gomega.Receive.Steps.{Event, sends, closes, matches, History, event, events, new_history}

module _ {V : Type 0} where
  -- A channel that is closed and has nothing left.
  abbrev drained : Channel V
  drained = record { values = []; is_closed = true }

  -- A matcher that has seen a closed channel has left it drained.
  abbrev IsSound : Receiver V → Channel V → Type 0
  IsSound r ch = (r.channel_closed ≡ false) ⊎ (ch ≡ drained)

  on_value-open :
      (arg : ReceiveArg V) (v : V) (r : Receiver V) (ch : Channel V)
      → (on_value arg v r ch).after.channel_closed ≡ r.channel_closed
  on_value-open no_arg v r ch = refl
  on_value-open (sub_matcher match) v r ch = refl
  on_value-open no_pointer v r ch = refl
  on_value-open (pointer whole inner) v r ch = assigned-open (whole v) (inner v)
    where
      assigned-open :
          (o p : Assignment V) → (assigned o p v r ch).after.channel_closed ≡ r.channel_closed
      assigned-open (assigns w) p = refl
      assigned-open panics p = refl
      assigned-open refuses (assigns w) = refl
      assigned-open refuses panics = refl
      assigned-open refuses refuses = refl

  on_selected-IsSound :
      (arg : ReceiveArg V) (vs : List V) (b : Bool) (r : Receiver V)
      → IsSound
          (on_selected arg (select (record { values = vs; is_closed = b })) r).after
          (on_selected arg (select (record { values = vs; is_closed = b })) r).left
  on_selected-IsSound arg [] true r = inr refl
  on_selected-IsSound arg [] false r = inl refl
  on_selected-IsSound arg (v ∷ vs) b r = inl (
      on_value-open arg v (record r { channel_closed = false })
        (record { values = vs; is_closed = b }))

  event-IsSound :
      (arg : ReceiveArg V) (e : Event V) (h : History V)
      → IsSound h.matcher h.ch
      → IsSound (event arg e h).matcher (event arg e h).ch
  unfolding match_channel
  event-IsSound arg (sends v) h sound =
      let more : History V = record h {
        ch = record { values = h.ch.values ++ v ∷ []; is_closed = false };
        sent = h.sent ++ v ∷ [];
      } in
      elim (Bool-cases h.ch.is_closed) [
        | inl shut ↦
            subst (λ b. IsSound (if b then h else more).matcher (if b then h else more).ch)
              (sym shut) sound
        | inr live ↦
            subst (λ b. IsSound (if b then h else more).matcher (if b then h else more).ch)
              (sym live)
              (elim sound [
                | inl unseen ↦ inl unseen
                | inr done ↦
                    let shut : h.ch.is_closed ≡ true = ap (λ (ch : Channel V). ch.is_closed) done in
                    absurd (ground (arith, live, shut))
              ])
      ]
  event-IsSound arg closes h sound = elim sound [
    | inl unseen ↦ inl unseen
    | inr done ↦ inr (ap (λ (ch : Channel V). the_closed ch.values) done)
  ]
    where
      the_closed : List V → Channel V
      the_closed vs = record { values = vs; is_closed = true }
  event-IsSound arg matches h sound = elim (Bool-cases (is_no_pointer arg)) [
    | inl bad ↦ rw bad sound
    | inr good ↦ rw good (on_selected-IsSound arg h.ch.values h.ch.is_closed h.matcher)
  ]

  events-IsSound :
      (arg : ReceiveArg V) (es : List (Event V)) (h : History V)
      → IsSound h.matcher h.ch
      → IsSound (events arg es h).matcher (events arg es h).ch
  events-IsSound arg [] h sound = sound
  events-IsSound arg (e ∷ es) h sound =
      events-IsSound arg es (event arg e h) (event-IsSound arg e h sound)

  event-drained :
      (arg : ReceiveArg V) (e : Event V) (r : Receiver V) (sent taken : List V)
      → ((event arg e (record { ch = drained; matcher = r; sent = sent; taken = taken })).ch
          ≡ drained)
        × ((event arg e (record { ch = drained; matcher = r; sent = sent; taken = taken })).taken
            ≡ taken)
  unfolding match_channel
  event-drained arg (sends v) r sent taken = (refl, refl)
  event-drained arg closes r sent taken = (refl, refl)
  event-drained arg matches r sent taken = elim (Bool-cases (is_no_pointer arg)) [
    | inl bad ↦ (rw bad refl, rw bad (append-nil taken))
    | inr good ↦ (rw good refl, rw good (append-nil taken))
  ]

  events-drained :
      (arg : ReceiveArg V) (es : List (Event V)) (h : History V)
      → h.ch ≡ drained
      → ((events arg es h).ch ≡ drained) × ((events arg es h).taken ≡ h.taken)
  events-drained arg [] h done = (done, refl)
  events-drained arg (e ∷ es) h done =
      let (still, same) = event-drained arg e h.matcher h.sent h.taken in
      let next =
        subst
          (λ (ch : Channel V).
            ((event arg e (record h { ch = ch })).ch ≡ drained)
            × ((event arg e (record h { ch = ch })).taken ≡ h.taken))
          (sym done) (still, same) in
      let (end, kept) = events-drained arg es (event arg e h) next.0 in (end, kept ∙ next.1)

  match_channel-drained :
      (arg : ReceiveArg V) (ch : Channel V) (r : Receiver V)
      → ch ≡ drained
      → (match_channel arg ch r).success ≡ false
  unfolding match_channel
  match_channel-drained arg ch r done =
      subst (λ (c : Channel V). (match_channel arg c r).success ≡ false) (sym done)
        (elim (Bool-cases (is_no_pointer arg)) [ inl bad ↦ rw bad refl | inr good ↦ rw good refl ])

  -- Once MatchMayChangeInTheFuture says that the match of a matcher that began with a new channel will
  -- not change, it does not: whatever is sent, closed and matched afterwards, nothing more is taken from
  -- the channel, and Match does not succeed.
  pub receive_may_change-final :
      (arg : ReceiveArg V) (es later : List (Event V)) (r : Receiver V)
      → r.channel_closed ≡ false
      → receive_may_change
          (channel (events arg es (new_history r)).ch)
          (events arg es (new_history r)).matcher
        ≡ false
      → ((events arg later (events arg es (new_history r))).taken
          ≡ (events arg es (new_history r)).taken)
        × ((match_channel arg
              (events arg later (events arg es (new_history r))).ch
              (events arg later (events arg es (new_history r))).matcher).success
            ≡ false)
  unfolding receive_may_change
  receive_may_change-final arg es later r new_matcher final =
      let h = events arg es (new_history r) in
      elim (events-IsSound arg es (new_history r) (inl new_matcher)) [
        | inl unseen ↦ absurd (ground (arith, unseen, final))
        | inr done ↦
            let (still, kept) = events-drained arg later h done in
            (
              kept,
              match_channel-drained arg (events arg later h).ch (events arg later h).matcher still,
            )
      ]
