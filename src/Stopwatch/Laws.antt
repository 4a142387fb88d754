-- ===== src/Stopwatch/Laws.antt =====
-- The durations that a Stopwatch records are the time that it ran since its last Reset.
use mathlib.Core.Path.{subst}
use gomega.Base.{
  ℕ, ◌+◌, ◌≤◌, ◌≡◌, Bool, true, false, not, Option, none, some, List, [], ◌∷◌, ◌++◌, if◌then◌else◌,
  arith, refl, ap,
}
use gomega.Stopwatch.{
  Stopwatch, new_stopwatch, duration, record_duration, reset, pause, resume, Call, record_call,
  reset_call, pause_call, resume_call, call,
}

-- A description of a stopwatch that only counts: at a time, the time that it ran since the last
-- reset, whether it is running, and what it recorded.
pub record Counter : Type 0 where
  pub now : ℕ
  pub ran : ℕ
  pub is_on : Bool
  pub noted : List ℕ

-- Time passes.
abbrev pub wait : ℕ → Counter → Counter
wait d c = record c { now = c.now + d; ran = if c.is_on then c.ran + d else c.ran }

abbrev pub count : Call → Counter → Option Counter
count record_call c =
    if not c.is_on then none else some (record c { noted = c.noted ++ c.ran ∷ [] })
count reset_call c = some (record c { ran = 0; is_on = true })
count pause_call c = if not c.is_on then none else some (record c { is_on = false })
count resume_call c = if c.is_on then none else some (record c { is_on = true })

-- A stopwatch at a counter's time.
pub record Shows (s : Stopwatch) (c : Counter) : Type 0 where
  pub running : s.is_running ≡ c.is_on
  pub records : s.recorded ≡ c.noted
  pub while_running : s.is_running ≡ true → s.t + s.pause_duration + c.ran ≡ c.now
  pub while_paused :
      s.is_running ≡ false → (s.t + s.pause_duration + c.ran ≡ s.pause_t) × (s.pause_t ≤ c.now)

Shows-wait : (s : Stopwatch) (c : Counter) (d : ℕ) → Shows s c → Shows s (wait d c)
Shows-wait s c d h = record {
  running = h.running;
  records = h.records;
  while_running = λ on. ground (arith, h.while_running on, h.running);
  while_paused = λ off. ground (arith, h.while_paused off, h.running);
}

-- Both refused a call, or both made it.
abbrev pub Agree : ℕ → Option Stopwatch → Option Counter → Type 0
Agree now none none = Unit {0}
Agree now none (some c) = ⊥
Agree now (some s) none = ⊥
Agree now (some s) (some c) = Shows s c × (c.now ≡ now)

Agree-if :
    (p q : Bool) (s : Stopwatch) (c : Counter)
    → p ≡ q
    → (p ≡ false → Shows s c)
    → Agree c.now (if p then none else some s) (if q then none else some c)
Agree-if true true s c h shows = tt
Agree-if true false s c h shows = absurd (cc)
Agree-if false true s c h shows = absurd (cc)
Agree-if false false s c h shows = (shows refl, refl)

call-Agree :
    (k : Call) (s : Stopwatch) (c : Counter) → Shows s c → Agree c.now (call k c.now s) (count k c)
unfolding record_duration reset pause resume duration
call-Agree record_call s c h = Agree-if _ _ _ _ (ap not h.running) (λ on. record {
  running = h.running;
  records = ground (arith, h.records, h.while_running (ground arith));
  while_running = h.while_running;
  while_paused = λ off. absurd (ground arith);
})
call-Agree reset_call s c h = (
  record {
    running = refl;
    records = h.records;
    while_running = λ on. omega arith;
    while_paused = λ off. absurd (cc);
  },
  refl,
)
call-Agree pause_call s c h = Agree-if _ _ _ _ (ap not h.running) (λ on. record {
  running = refl;
  records = h.records;
  while_running = λ run. absurd (cc);
  while_paused = λ off. ground (arith, h.while_running (ground arith));
})
call-Agree resume_call s c h = Agree-if _ _ _ _ h.running (λ off. record {
  running = refl;
  records = h.records;
  while_running = λ on. omega (arith, h.while_paused off);
  while_paused = λ no. absurd (cc);
})

-- The calls of a session, each after some time, on either.
abbrev pub run : ℕ → List (ℕ × Call) → Option Stopwatch → Option Stopwatch
run now [] s = s
run now (e ∷ es) none = none
run now ((d, k) ∷ es) (some s) = run (now + d) es (call k (now + d) s)

abbrev pub run_count : List (ℕ × Call) → Option Counter → Option Counter
run_count [] c = c
run_count (e ∷ es) none = none
run_count ((d, k) ∷ es) (some c) = run_count es (count k (wait d c))

-- The time after the calls.
abbrev finish : ℕ → List (ℕ × Call) → ℕ
finish now [] = now
finish now ((d, k) ∷ es) = finish (now + d) es

run-Agree :
    (es : List (ℕ × Call)) (now : ℕ) (o : Option Stopwatch) (p : Option Counter)
    → Agree now o p
    → Agree (finish now es) (run now es o) (run_count es p)
run-Agree [] now o p h = h
run-Agree (e ∷ es) now none none h = tt
run-Agree (e ∷ es) now none (some c) h = absurd h
run-Agree (e ∷ es) now (some s) none h = absurd h
run-Agree ((d, k) ∷ es) now (some s) (some c) (shows, same_time) =
    run-Agree es (now + d) (call k (now + d) s) (count k (wait d c)) (
      subst (λ n. Agree n (call k n s) (count k (wait d c))) (ap (λ n. n + d) same_time)
        (call-Agree k s (wait d c) (Shows-wait s c d shows)))

abbrev pub recorded : Option Stopwatch → Option (List ℕ)
recorded none = none
recorded (some s) = some s.recorded

abbrev pub noted : Option Counter → Option (List ℕ)
noted none = none
noted (some c) = some c.noted

recorded-Agree :
    (now : ℕ) (o : Option Stopwatch) (p : Option Counter) → Agree now o p → recorded o ≡ noted p
recorded-Agree now none none h = refl
recorded-Agree now none (some c) h = absurd h
recorded-Agree now (some s) none h = absurd h
recorded-Agree now (some s) (some c) h = ap some h.0.records

abbrev pub started : ℕ → Counter
started now = record { now = now; ran = 0; is_on = true; noted = [] }

-- In any session of calls on a new stopwatch, each after some time, the calls that panic and the
-- durations that are recorded are those of a counter that only counts the time for which the
-- stopwatch was running since its last reset.
pub run-counts :
    (now : ℕ) (es : List (ℕ × Call))
    → recorded (run now es (some (new_stopwatch now))) ≡ noted (run_count es (some (started now)))
unfolding new_stopwatch
run-counts now es =
    recorded-Agree (finish now es) (run now es (some (new_stopwatch now)))
      (run_count es (some (started now)))
      (run-Agree es now (some (new_stopwatch now)) (some (started now)) (
        record {
          running = refl;
          records = refl;
          while_running = λ on. omega arith;
          while_paused = λ off. absurd (cc);
        },
        refl,
      ))
