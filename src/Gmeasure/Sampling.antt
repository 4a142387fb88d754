-- ===== src/Gmeasure/Sampling.antt =====
-- Sample of gmeasure/experiment.go. Times are counted, so that they are not negative, and so are the
-- fields of a SamplingConfig.
use Prim.Native.Nat.{◌/◌}
use gomega.Base.{
  ℕ, zero, suc, ◌+◌, ◌-◌, ◌*◌, ◌≡◌, ◌<◌, Bool, true, false, ◌&&◌, ◌||◌, ◌==◌, ltb, leb, List, [],
  ◌∷◌, ◌++◌, if◌then◌else◌,
}

pub record SamplingConfig : Type 0 where
  pub n : ℕ
  pub duration : ℕ
  pub num_parallel : ℕ
  pub min_sampling_interval : ℕ

-- The clock's readings, by the sample's index: before the callback or the send, after it, after the sleep,
-- and at the test for the end.
pub record Clock : Type 0 where
  pub began : ℕ
  pub before : ℕ → ℕ
  pub after : ℕ → ℕ
  pub slept : ℕ → ℕ
  pub tested : ℕ → ℕ

-- What Sample does: it calls the callback, sends an index to its workers, or sleeps.
pub data Event : Type 0 where
  run send sleep : ℕ → Event

pub data Outcome : Type 0 where
  panicked unfinished : Outcome
  returned : List Event → Outcome

abbrev after_events : List Event → Outcome → Outcome
after_events es panicked = panicked
after_events es unfinished = unfinished
after_events es (returned rest) = returned (es ++ rest)

abbrev pub parallel_of : SamplingConfig → ℕ
parallel_of c = if ltb 1 c.num_parallel then c.num_parallel else 1

abbrev pub max_n_of : SamplingConfig → ℕ
max_n_of c = if ltb 0 c.n then c.n else 2147483647

-- 360000000000000000 nanoseconds are 100000 hours.
abbrev pub max_time_of : Clock → SamplingConfig → ℕ
max_time_of clock c =
    if ltb 0 c.duration then clock.began + c.duration else clock.began + 360000000000000000

abbrev pub rejects : SamplingConfig → Bool
rejects c =
    ((c.n == 0) && (c.duration == 0)) || (ltb 0 c.min_sampling_interval && ltb 1 c.num_parallel)

abbrev pub without_sleeps : List Event → List Event
without_sleeps [] = []
without_sleeps (run i ∷ es) = run i ∷ without_sleeps es
without_sleeps (send i ∷ es) = send i ∷ without_sleeps es
without_sleeps (sleep d ∷ es) = without_sleeps es

module _ (clock : Clock) (c : SamplingConfig) where
  abbrev call_event : ℕ → Event
  call_event idx = if ltb 1 (parallel_of c) then send idx else run idx

  abbrev is_short : ℕ → Bool
  is_short idx =
      (parallel_of c == 1) && ltb (clock.after idx - clock.before idx) c.min_sampling_interval

  abbrev sample_events : ℕ → List Event
  sample_events idx =
      if is_short idx
      then call_event idx
        ∷ sleep (c.min_sampling_interval - (clock.after idx - clock.before idx))
        ∷ []
      else call_event idx ∷ []

  abbrev sample_dt : ℕ → ℕ
  sample_dt idx =
      if is_short idx
      then clock.slept idx - clock.before idx
      else clock.after idx - clock.before idx

  abbrev next_average : ℕ → ℕ → ℕ
  next_average idx avg =
      let warm = idx - parallel_of c in
      if leb (parallel_of c) idx then (avg * warm + sample_dt idx) / (warm + 1) else avg

  abbrev is_last : ℕ → ℕ → Bool
  is_last idx avg = leb (max_n_of c) (idx + 1) || ltb (max_time_of clock c) (clock.tested idx + avg)

  -- The loop, on fuel.
  abbrev sample_loop : ℕ → ℕ → ℕ → Outcome
  sample_loop zero idx avg = unfinished
  sample_loop (suc fuel) idx avg =
      let rest = sample_loop fuel (idx + 1) (next_average idx avg) in
      if is_last idx (next_average idx avg)
      then returned (sample_events idx)
      else after_events (sample_events idx) rest

  unfoldable pub sample : Outcome
  sample = if rejects c then panicked else sample_loop (max_n_of c) 0 0

  -- avgDt after the first `k` samples.
  abbrev pub average : ℕ → ℕ
  average zero = 0
  average (suc k) = next_average k (average k)

  abbrev pub stops_at : ℕ → Bool
  stops_at idx = is_last idx (average (suc idx))

  abbrev pub calls_from : ℕ → ℕ → List Event
  calls_from idx zero = []
  calls_from idx (suc k) = call_event idx ∷ calls_from (idx + 1) k

  -- `j + 1` samples from `idx` on, of which the last is the first at which the loop stops.
  abbrev pub Samples : ℕ → List Event → ℕ → Type 0
  Samples idx es j =
      (without_sleeps es ≡ calls_from idx (suc j))
      × (idx + j < max_n_of c)
      × (stops_at (idx + j) ≡ true)
      × ((i : ℕ) → i < j → stops_at (idx + i) ≡ false)
