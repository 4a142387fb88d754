-- ===== src/Gexec/Laws.antt =====
-- What a session's exit code tells, and that it stays.
use gomega.Base.{◌≡◌, refl, ap, ◌∙◌, Bool, true, false, List, [], ◌∷◌, arith}
use gomega.Gexec.{
  Session, minus_one, int_eq, start, process_is_alive, signal, signaled, exit_status, set_exit_code,
  monitor_for_exit, close_exited, exit_may_change, Happening, signals, ends, closes_exited, happen,
  run,
}

-- An exit code other than -1 is that of a session that has ended and closed its buffers, and the channel
-- Exited is closed only then.
abbrev IsHonest : Session → Type 0
IsHonest s =
    (int_eq s.exit_code minus_one ≡ false
      → (s.ended ≡ true) × (s.out_closed ≡ true) × (s.err_closed ≡ true))
    × (s.exited ≡ true → s.ended ≡ true)

happen-IsHonest : (h : Happening) (s : Session) → IsHonest s → IsHonest (happen h s)
unfolding happen signal monitor_for_exit close_exited set_exit_code process_is_alive
happen-IsHonest (signals n) s honest = (ground (arith, honest.0), ground (arith, honest.1))
happen-IsHonest (ends (signaled n) err) s honest =
    (ground (arith, honest.0), ground (arith, honest.1))
happen-IsHonest (ends (exit_status k) err) s honest =
    (ground (arith, honest.0), ground (arith, honest.1))
happen-IsHonest closes_exited s honest = (ground (arith, honest.0), ground (arith, honest.1))

-- The same but for the channel Exited, which may have been closed.
abbrev pub IsSettled : Session → Session → Type 0
IsSettled s later =
    (later ≡ record s { exited = later.exited }) × (s.exited ≡ true → later.exited ≡ true)

-- Once the exit code is known, no signal is sent and only Exited is closed.
happen-IsSettled :
    (h : Happening) (s : Session)
    → IsHonest s
    → int_eq s.exit_code minus_one ≡ false
    → IsSettled s (happen h s)
unfolding happen signal close_exited process_is_alive
happen-IsSettled (signals n) s honest known = (ground (arith, known), ground (arith, known))
happen-IsSettled (ends st err) s honest known =
    let (over, _, _) = honest.0 known in (ground (arith, over), ground (arith, over))
happen-IsSettled closes_exited s honest known =
    let (over, _, _) = honest.0 known in (ground (arith, over), ground (arith, over))

IsSettled-known :
    (s later : Session)
    → IsSettled s later
    → int_eq s.exit_code minus_one ≡ false
    → int_eq later.exit_code minus_one ≡ false
IsSettled-known s later settled known =
    ap (λ (t : Session). int_eq t.exit_code minus_one) settled.0 ∙ known

run-IsSettled :
    (hs : List Happening) (s : Session)
    → IsHonest s
    → int_eq s.exit_code minus_one ≡ false
    → IsSettled s (run hs s)
unfolding run
run-IsSettled [] s honest known = (refl, λ open_before. open_before)
run-IsSettled (h ∷ hs) s honest known =
    let first = happen-IsSettled h s honest known in
    let rest =
      run-IsSettled hs (happen h s) (happen-IsHonest h s honest)
        (IsSettled-known s (happen h s) first known) in
    (
      rest.0 ∙ ap (λ (t : Session). record t { exited = (run hs (happen h s)).exited }) first.0,
      λ open_before. rest.1 (first.1 open_before),
    )

run-IsHonest : (hs : List Happening) (s : Session) → IsHonest s → IsHonest (run hs s)
unfolding run
run-IsHonest [] s honest = honest
run-IsHonest (h ∷ hs) s honest = run-IsHonest hs (happen h s) (happen-IsHonest h s honest)

-- Once the oracle of the Exit matcher says, of a session whatever happened to it since its start, that
-- nothing will change, the exit code stays, later signals are not sent, and the buffers are closed; the
-- only thing that may still change is that the channel Exited is closed.
pub run-exit_may_change :
    (ok : Bool) (hs later : List Happening)
    → exit_may_change (run hs (start ok)) ≡ false
    → IsSettled (run hs (start ok)) (run later (run hs (start ok)))
      × ((run hs (start ok)).out_closed ≡ true)
      × ((run hs (start ok)).err_closed ≡ true)
unfolding exit_may_change start
run-exit_may_change ok hs later known =
    let honest =
      run-IsHonest hs (start ok) ((λ h. absurd (ground arith)), λ h. absurd (ground arith)) in
    let (ended, out, err) = honest.0 known in
    (run-IsSettled later (run hs (start ok)) honest known, out, err)
