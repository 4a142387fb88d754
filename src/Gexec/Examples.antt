-- ===== src/Gexec/Examples.antt =====
-- Instances of the theorems on sessions.
use gomega.Base.{◌≡◌, refl, true, false, List, [], ◌∷◌}
use gomega.Base.Int.{pos}
use gomega.Gexec.{
  Happening, signals, ends, closes_exited, exit_status, start, run, close_exited, exit_may_change,
}
use gomega.Gexec.Laws.{IsSettled, run-exit_may_change}

abbrev terminated : List Happening
terminated = signals 15 ∷ ends (exit_status (pos 3)) true ∷ []

run-exit_may_change_example :
    IsSettled
      (run terminated (start true))
      (run (closes_exited ∷ signals 9 ∷ []) (run terminated (start true)))
    × ((run terminated (start true)).out_closed ≡ true)
    × ((run terminated (start true)).err_closed ≡ true)
unfolding exit_may_change run start
run-exit_may_change_example =
    run-exit_may_change true terminated (closes_exited ∷ signals 9 ∷ []) refl

-- The exit code can be seen while Exited is still open.
exited_later :
    ((run terminated (start true)).exited ≡ false)
    × ((run (closes_exited ∷ []) (run terminated (start true))).exited ≡ true)
unfolding run start close_exited
exited_later = (refl, refl)
