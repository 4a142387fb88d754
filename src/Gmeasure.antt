-- ===== src/Gmeasure.antt =====
-- gmeasure/experiment.go, measurement.go and enum_support.go, less the reports.
-- Durations are of a type D and values, which are float64, of a type F; a method that holds the lock is
-- one step, and `none` is its panic.
pub mod Recording
pub mod Durations
pub mod Sorting
pub mod Stats
pub mod Bounds
pub mod Sampling
pub mod Enums
pub mod Cache
pub mod Rank
mod Examples
use Prim.Native.String.{String}
use text.Mathlib.Text
use gomega.Base.{
  ℕ, zero, suc, ◌+◌, Bool, true, false, not, Option, none, some, List, [], ◌∷◌, ◌++◌, if◌then◌else◌,
  get_elem?,
}

abbrev pub is_name : String → String → Bool
is_name a b = Text.◌==◌ a b

pub data MeasurementType : Type 0 where
  invalid note duration value : MeasurementType

abbrev pub is_duration : MeasurementType → Bool
is_duration duration = true
is_duration t = false

abbrev pub is_value : MeasurementType → Bool
is_value value = true
is_value t = false

pub record PrecisionBundle : Type 0 where
  pub duration_precision : ℕ
  pub value_format : String

pub record Decorations : Type 0 where
  pub annotation : String
  pub units : String
  pub precision_bundle : PrecisionBundle
  pub style : String

-- A decoration, or an argument of another type.
pub data Argument : Type 0 where
  annotate with_units with_style : String → Argument
  with_precision : PrecisionBundle → Argument
  unrecognized : Argument

unfoldable pub default_decorations : Decorations
default_decorations = record {
  annotation = "";
  units = "";
  precision_bundle = record { duration_precision = 100000; value_format = "%.3f" };
  style = "";
}

-- The loop of extractDecorations.
unfoldable pub extract_from : List Argument → Decorations → Option Decorations
extract_from [] out = some out
extract_from (annotate a ∷ args) out = extract_from args (record out { annotation = a })
extract_from (with_units u ∷ args) out = extract_from args (record out { units = u })
extract_from (with_style s ∷ args) out = extract_from args (record out { style = s })
extract_from (with_precision p ∷ args) out = extract_from args (record out { precision_bundle = p })
extract_from (unrecognized ∷ args) out = none

unfoldable pub extract_decorations : List Argument → Option Decorations
unfolding extract_from default_decorations
extract_decorations args = extract_from args default_decorations

pub record Measurement (D F : Type 0) : Type 0 where
  pub type : MeasurementType
  pub experiment_name : String
  pub note_text : String
  pub name : String
  pub measurement_style : String
  pub measurement_units : String
  pub measurement_precision : PrecisionBundle
  pub durations : List D
  pub values : List F
  pub annotations : List String

pub record Experiment (D F : Type 0) : Type 0 where
  pub title : String
  pub measurements : List (Measurement D F)

abbrev pub update_at : {A : Type 0} → ℕ → (A → A) → List A → List A
update_at i f [] = []
update_at zero f (x ∷ xs) = f x ∷ xs
update_at (suc i) f (x ∷ xs) = x ∷ update_at i f xs

abbrev next_index : Option ℕ → Option ℕ
next_index none = none
next_index (some i) = some (suc i)

module _ {D F : Type 0} where
  unfoldable pub new_experiment : String → Experiment D F
  new_experiment title = record { title = title; measurements = [] }

  unfoldable pub idx_with_name : String → List (Measurement D F) → Option ℕ
  idx_with_name n [] = none
  idx_with_name n (m ∷ ms) =
      let rest = idx_with_name n ms in if is_name m.name n then some 0 else next_index rest

  -- Measurement{}.
  abbrev pub zero_measurement : Measurement D F
  zero_measurement = record {
    type = invalid;
    experiment_name = "";
    note_text = "";
    name = "";
    measurement_style = "";
    measurement_units = "";
    measurement_precision = record { duration_precision = 0; value_format = "" };
    durations = [];
    values = [];
    annotations = [];
  }

  unfoldable pub record_note : String → Decorations → Experiment D F → Experiment D F
  record_note text dec e = record e {
    measurements =
        e.measurements
        ++ record zero_measurement {
          type = note;
          experiment_name = e.title;
          note_text = text;
          measurement_style = dec.style;
        }
          ∷ [];
  }

  unfoldable pub new_duration : String → D → Decorations → String → Measurement D F
  new_duration n d dec title = record zero_measurement {
    type = duration;
    experiment_name = title;
    name = n;
    measurement_style = dec.style;
    measurement_units = "duration";
    measurement_precision = dec.precision_bundle;
    durations = d ∷ [];
    annotations = dec.annotation ∷ [];
  }

  unfoldable pub new_value : String → F → Decorations → String → Measurement D F
  new_value n v dec title = record zero_measurement {
    type = value;
    experiment_name = title;
    name = n;
    measurement_style = dec.style;
    measurement_units = dec.units;
    measurement_precision = dec.precision_bundle;
    values = v ∷ [];
    annotations = dec.annotation ∷ [];
  }

  abbrev pub add_duration : D → Decorations → Measurement D F → Measurement D F
  add_duration d dec m = record m {
    durations = m.durations ++ d ∷ [];
    annotations = m.annotations ++ dec.annotation ∷ [];
  }

  abbrev pub add_value : F → Decorations → Measurement D F → Measurement D F
  add_value v dec m = record m {
    values = m.values ++ v ∷ [];
    annotations = m.annotations ++ dec.annotation ∷ [];
  }

  -- `e.Measurements[i]`, updated if its type is right; `none` is a panic.
  unfoldable pub update_typed :
      (MeasurementType → Bool)
      → (Measurement D F → Measurement D F)
      → ℕ
      → Experiment D F
      → Option (Experiment D F)
  update_typed right f i e = elim (get_elem? e.measurements i) [
    | none ↦ none
    | some m ↦
        if not (right m.type)
        then none
        else some (record e { measurements = update_at i f e.measurements })
  ]

  unfoldable pub record_duration :
      String → D → Decorations → Experiment D F → Option (Experiment D F)
  unfolding idx_with_name update_typed new_duration
  record_duration n d dec e = elim (idx_with_name n e.measurements) [
    | none ↦ some (record e { measurements = e.measurements ++ new_duration n d dec e.title ∷ [] })
    | some i ↦ update_typed is_duration (add_duration d dec) i e
  ]

  unfoldable pub record_value : String → F → Decorations → Experiment D F → Option (Experiment D F)
  unfolding idx_with_name update_typed new_value
  record_value n v dec e = elim (idx_with_name n e.measurements) [
    | none ↦ some (record e { measurements = e.measurements ++ new_value n v dec e.title ∷ [] })
    | some i ↦ update_typed is_value (add_value v dec) i e
  ]

  unfoldable pub get : String → Experiment D F → Measurement D F
  unfolding idx_with_name
  get n e = elim (idx_with_name n e.measurements) [
    | none ↦ zero_measurement
    | some i ↦ elim (get_elem? e.measurements i) [ none ↦ zero_measurement | some m ↦ m ]
  ]
