-- ===== src/Stopwatch/Examples.antt =====
-- Instances of the theorems on stopwatches.
use gomega.Base.{ℕ, ◌≡◌, refl, some, List, [], ◌∷◌}
use gomega.Stopwatch.{Call, record_call, pause_call, resume_call, reset_call, new_stopwatch}
use gomega.Stopwatch.Laws.{run, run_count, recorded, noted, started, run-counts}

-- 5 on, 7 paused, 2 on, recorded; reset after 1, recorded after 4.
abbrev session : List (ℕ × Call)
session =
    (5, pause_call) ∷ (7, resume_call) ∷ (2, record_call) ∷ (1, reset_call) ∷ (4, record_call) ∷ []

run-counts_example :
    recorded (run 100 session (some (new_stopwatch 100)))
    ≡ noted (run_count session (some (started 100)))
run-counts_example = run-counts 100 session

session_counts : noted (run_count session (some (started 100))) ≡ some (7 ∷ 4 ∷ [])
session_counts = refl
