-- ===== src/Stopwatch.antt =====
-- gmeasure/stopwatch.go. A time is a number of nanoseconds of the monotonic clock, which is read at
-- each call and handed to it; `none` is the panic of a call that the stopwatch's state does not allow.
pub mod Laws
mod Examples
use gomega.Base.{
  ℕ, ◌+◌, ◌-◌, Bool, true, false, not, Option, none, some, List, [], ◌∷◌, ◌++◌, if◌then◌else◌,
}

-- Stopwatch, with the durations that it recorded on its Experiment.
pub record Stopwatch : Type 0 where
  pub t : ℕ
  pub pause_t : ℕ
  pub pause_duration : ℕ
  pub is_running : Bool
  pub recorded : List ℕ

unfoldable pub new_stopwatch : ℕ → Stopwatch
new_stopwatch now = record {
  t = now;
  pause_t = 0;
  pause_duration = 0;
  is_running = true;
  recorded = [];
}

-- `time.Since(s.t) - s.pauseDuration`; what Record records.
unfoldable pub duration : ℕ → Stopwatch → ℕ
duration now s = now - s.t - s.pause_duration

unfoldable pub record_duration : ℕ → Stopwatch → Option Stopwatch
unfolding duration
record_duration now s =
    if not s.is_running
    then none
    else some (record s { recorded = s.recorded ++ duration now s ∷ [] })

unfoldable pub reset : ℕ → Stopwatch → Option Stopwatch
reset now s = some (record s { is_running = true; t = now; pause_duration = 0 })

unfoldable pub pause : ℕ → Stopwatch → Option Stopwatch
pause now s =
    if not s.is_running then none else some (record s { is_running = false; pause_t = now })

unfoldable pub resume : ℕ → Stopwatch → Option Stopwatch
resume now s =
    if s.is_running
    then none
    else some
        (record s { is_running = true; pause_duration = s.pause_duration + (now - s.pause_t) })

pub data Call : Type 0 where
  record_call reset_call pause_call resume_call : Call

abbrev pub call : Call → ℕ → Stopwatch → Option Stopwatch
call record_call = record_duration
call reset_call = reset
call pause_call = pause
call resume_call = resume
