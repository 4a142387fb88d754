-- ===== src/Gmeasure/Examples.antt =====
-- Instances of the theorems on experiments, samples and enums.
use Prim.Native.String.{String}
use gomega.Base.{
  ◌*◌, ℕ, ◌+◌, ◌≡◌, ◌≢◌, refl, false, Option, none, some, List, [], ◌∷◌, ◌++◌, if◌then◌else◌,
  is_some, All,
}
use Prim.Native.Nat.{◌/◌}
use gomega.Base.{ltb, get_elem?, arith}
use gomega.Gmeasure.Stats.{Numbers, Summary, summarize}
use gomega.Gmeasure.Sorting.Insertion.{
  insertions, insertions-Sorts, insertions-Permutes, ltb-IsWeakOrder,
}
use gomega.Gmeasure.Bounds.{Recorded, summarize-Recorded}
use gomega.Gmeasure.{
  Experiment, Measurement, Decorations, Argument, annotate, default_decorations,
  extract_decorations, extract_from, new_experiment, record_note, record_duration, record_value,
  get, new_duration, idx_with_name, update_typed, is_name,
}
use gomega.Gmeasure.Durations.{
  IsConsistent, Call, note_call, duration_call, value_call, session, record_duration-get,
  session-IsConsistent,
}
use gomega.Gmeasure.Enums.{
  Json, new_enum_support, marsh_json, unmarsh_json, string_at, unmarsh_json-marsh_json,
}
use gomega.Gmeasure.Sampling.{SamplingConfig, Clock}

abbrev slow : Decorations
slow = record {
  annotation = "slow";
  units = "";
  precision_bundle = record { duration_precision = 100000; value_format = "%.3f" };
  style = "";
}

abbrev first : Experiment ℕ ℕ
first = record {
  title = "load";
  measurements =
      record {
        type = gomega.Gmeasure.duration;
        experiment_name = "load";
        note_text = "";
        name = "get";
        measurement_style = "";
        measurement_units = "duration";
        measurement_precision = record { duration_precision = 100000; value_format = "%.3f" };
        durations = 7 ∷ [];
        values = [];
        annotations = "" ∷ [];
      }
      ∷ [];
}

abbrev second : Experiment ℕ ℕ
second = record {
  title = "load";
  measurements =
      record {
        type = gomega.Gmeasure.duration;
        experiment_name = "load";
        note_text = "";
        name = "get";
        measurement_style = "";
        measurement_units = "duration";
        measurement_precision = record { duration_precision = 100000; value_format = "%.3f" };
        durations = 7 ∷ 9 ∷ [];
        values = [];
        annotations = "" ∷ "slow" ∷ [];
      }
      ∷ [];
}

recorded_twice : record_duration "get" 9 slow first ≡ some second
unfolding record_duration
recorded_twice = refl

record_duration-get_example :
    ((get "get" second).durations ≡ (get "get" first).durations ++ 9 ∷ [])
    × ((get "get" second).annotations ≡ (get "get" first).annotations ++ slow.annotation ∷ [])
    × ((n' : String) → "get" ≢ n' → get n' second ≡ get n' first)
record_duration-get_example = record_duration-get "get" 9 slow first second recorded_twice

abbrev calls : List (Call ℕ ℕ)
calls =
    note_call "start" slow
    ∷ duration_call "get" 7 slow
    ∷ value_call "get" 3 slow
    ∷ duration_call "get" 9 slow
    ∷ []

session-IsConsistent_example : All IsConsistent (session calls (new_experiment "load")).measurements
session-IsConsistent_example = session-IsConsistent "load" calls

abbrev plain : Json (Option String)
plain = record { marshal = λ s. s; unmarshal = λ b. elim b [ none ↦ some "" | some s ↦ some s ] }

abbrev stats_types : List (ℕ × String)
stats_types = (0, "INVALID STATS TYPE") ∷ (1, "StatsTypeValue") ∷ (2, "StatsTypeDuration") ∷ []

unmarsh_json-marsh_json_example :
    unmarsh_json plain
      (new_enum_support stats_types)
      (marsh_json plain (new_enum_support stats_types) 2)
    ≡ some (if is_some (string_at 2 stats_types) then 2 else 0)
unmarsh_json-marsh_json_example = unmarsh_json-marsh_json plain stats_types 2 refl (λ s. refl) refl

abbrev steady : Clock
steady = record {
  began = 0;
  before = λ i. 10 * i;
  after = λ i. 10 * i + 4;
  slept = λ i. 10 * i + 6;
  tested = λ i. 10 * i + 7;
}

abbrev timed : SamplingConfig
timed = record { n = 9; duration = 30; num_parallel = 0; min_sampling_interval = 6 }

abbrev counts : Numbers ℕ
counts = record {
  sort = insertions;
  less = ltb;
  nought = 0;
  add = λ a b. a + b;
  over = λ a n. a / n;
  deviation = λ vs mean. 0;
}

abbrev points : List ℕ
points = 7 ∷ 4 ∷ []

abbrev point_annotations : List String
point_annotations = "slow" ∷ "fast" ∷ []

summarize-Recorded_example :
    (s : Summary ℕ) × (summarize counts points point_annotations ≡ some s)
    × Recorded points point_annotations s.min s.min_annotation
    × Recorded points point_annotations s.max s.max_annotation
    × ((k : ℕ) (v : ℕ)
        → get_elem? points k ≡ some v
        → (ltb v s.min ≡ false) × (ltb s.max v ≡ false))
summarize-Recorded_example =
    summarize-Recorded counts points point_annotations insertions-Sorts insertions-Permutes
      ltb-IsWeakOrder refl (omega arith)

fast_is_least :
    summarize counts points point_annotations
    ≡ some (record {
      n = 2;
      min = 4;
      max = 7;
      mean = 5;
      median = 5;
      std_dev = 0;
      min_annotation = "fast";
      max_annotation = "slow";
    })
unfolding summarize
fast_is_least = refl
