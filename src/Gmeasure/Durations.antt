-- ===== src/Gmeasure/Durations.antt =====
-- What RecordDuration and RecordValue do to an experiment.
use Prim.Native.String.{String}
use mathlib.Core.Path.{subst}
use gomega.Base.{
  ℕ, ◌+◌, ◌≡◌, ◌≢◌, inl, inr, refl, sym, ap, ◌∙◌, Bool, true, Option, none, some, List, [], ◌∷◌,
  ◌++◌, get_elem?, arith, Bool-cases, Option-cases, length, length-append, All,
}
use gomega.Gmeasure.{
  MeasurementType, duration, value, note, invalid, is_duration, is_value, Measurement, Experiment,
  Decorations, idx_with_name, new_experiment, new_duration, new_value, add_duration, add_value,
  update_typed, record_note, record_duration, record_value, get,
}
use gomega.Gmeasure.Recording.{
  named, or_zero, put, recorded, changed, some-injective, get-named, put-named, put-named_other,
  put-All, recorded-put,
}

length-snoc :
    {A B : Type 0} (xs : List A) (ys : List B) (x : A) (y : B)
    → length xs ≡ length ys
    → length (xs ++ x ∷ []) ≡ length (ys ++ y ∷ [])
length-snoc xs ys x y h =
    length-append xs (x ∷ []) ∙ (ap (λ k. k + 1) h ∙ sym (length-append ys (y ∷ [])))

module _ {D F : Type 0} where
  abbrev with_measurements :
      Experiment D F → Option (List (Measurement D F)) → Option (Experiment D F)
  with_measurements e none = none
  with_measurements e (some ms) = some (record e { measurements = ms })

  with_measurements-some :
      (e e' : Experiment D F) (o : Option (List (Measurement D F)))
      → with_measurements e o ≡ some e'
      → o ≡ some e'.measurements
  with_measurements-some e e' none h = absurd (cc)
  with_measurements-some e e' (some ms) h = ap (λ x. some x.measurements) (some-injective h)

  update_typed-recorded :
      (right : MeasurementType → Bool) (f : Measurement D F → Measurement D F)
      (new : Measurement D F) (n : String) (i : ℕ) (e : Experiment D F)
      → update_typed right f i e
        ≡ with_measurements e (recorded right f new n e.measurements (some i))
  unfolding update_typed
  update_typed-recorded right f new n i e = elim (Option-cases (get_elem? e.measurements i)) [
    | inl beyond ↦ ground (arith, beyond)
    | inr (m, found) ↦ elim (Bool-cases (right m.type)) [
      | inl good ↦ ground (arith, found, good)
      | inr bad ↦ ground (arith, found, bad)
    ]
  ]

  record_duration-recorded :
      (n : String) (d : D) (dec : Decorations) (e : Experiment D F)
      → record_duration n d dec e
        ≡ with_measurements e (
            recorded is_duration
              (add_duration d dec)
              (new_duration n d dec e.title)
              n
              e.measurements
              (idx_with_name n e.measurements))
  unfolding record_duration
  record_duration-recorded n d dec e = elim (Option-cases (idx_with_name n e.measurements)) [
    | inl absent ↦ ground (arith, absent)
    | inr (i, there) ↦
        ground (arith, there)
        ∙ update_typed-recorded is_duration (add_duration d dec) (new_duration n d dec e.title) n i
            e
        ∙ ground (arith, there)
  ]

  record_duration-stored :
      (n : String) (d : D) (dec : Decorations) (e e' : Experiment D F)
      → record_duration n d dec e ≡ some e'
      → put is_duration (add_duration d dec) (new_duration n d dec e.title) n e.measurements
        ≡ some e'.measurements
  record_duration-stored n d dec e e' h =
      let f = add_duration d dec in
      let new = new_duration n d dec e.title in
      sym (recorded-put is_duration f new n e.measurements)
      ∙ with_measurements-some e e'
          (recorded is_duration f new n e.measurements (idx_with_name n e.measurements))
          (sym (record_duration-recorded n d dec e) ∙ h)

  changed-durations :
      (n : String) (d : D) (dec : Decorations) (title : String) (o : Option (Measurement D F))
      → (changed is_duration (add_duration d dec) (new_duration n d dec title) n o).durations
        ≡ (or_zero o).durations ++ d ∷ []
  unfolding new_duration
  changed-durations n d dec title none = refl
  changed-durations n d dec title (some m) = refl

  changed-annotations :
      (n : String) (d : D) (dec : Decorations) (title : String) (o : Option (Measurement D F))
      → (changed is_duration (add_duration d dec) (new_duration n d dec title) n o).annotations
        ≡ (or_zero o).annotations ++ dec.annotation ∷ []
  unfolding new_duration
  changed-annotations n d dec title none = refl
  changed-annotations n d dec title (some m) = refl

  -- A RecordDuration that does not panic appends the duration and its annotation to what was recorded
  -- under the name, and leaves every other name as it was.
  pub record_duration-get :
      (n : String) (d : D) (dec : Decorations) (e e' : Experiment D F)
      → record_duration n d dec e ≡ some e'
      → ((get n e').durations ≡ (get n e).durations ++ d ∷ [])
        × ((get n e').annotations ≡ (get n e).annotations ++ dec.annotation ∷ [])
        × ((n' : String) → n ≢ n' → get n' e' ≡ get n' e)
  unfolding new_duration
  record_duration-get n d dec e e' h =
      let f = add_duration d dec in
      let new = new_duration n d dec e.title in
      let stored = record_duration-stored n d dec e e' h in
      let now =
        get-named n e'
        ∙ ap or_zero (
            put-named is_duration f new n (λ m. refl) refl e.measurements e'.measurements stored) in
      (
        ap (λ m. m.durations) now
            ∙ (changed-durations n d dec e.title (named n e.measurements)
                ∙ ap (λ m. m.durations ++ d ∷ []) (sym (get-named n e))),
        ap (λ m. m.annotations) now
            ∙ (changed-annotations n d dec e.title (named n e.measurements)
                ∙ ap (λ m. m.annotations ++ dec.annotation ∷ []) (sym (get-named n e))),
        λ n' other.
            get-named n' e'
            ∙ (ap or_zero (
                  put-named_other is_duration f new n (λ m. refl) refl n' e.measurements
                    e'.measurements other stored)
                ∙ sym (get-named n' e)),
      )

  record_value-recorded :
      (n : String) (v : F) (dec : Decorations) (e : Experiment D F)
      → record_value n v dec e
        ≡ with_measurements e (
            recorded is_value
              (add_value v dec)
              (new_value n v dec e.title)
              n
              e.measurements
              (idx_with_name n e.measurements))
  unfolding record_value
  record_value-recorded n v dec e = elim (Option-cases (idx_with_name n e.measurements)) [
    | inl absent ↦ ground (arith, absent)
    | inr (i, there) ↦
        ground (arith, there)
        ∙ update_typed-recorded is_value (add_value v dec) (new_value n v dec e.title) n i e
        ∙ ground (arith, there)
  ]

  record_value-stored :
      (n : String) (v : F) (dec : Decorations) (e e' : Experiment D F)
      → record_value n v dec e ≡ some e'
      → put is_value (add_value v dec) (new_value n v dec e.title) n e.measurements
        ≡ some e'.measurements
  record_value-stored n v dec e e' h =
      let f = add_value v dec in
      let new = new_value n v dec e.title in
      sym (recorded-put is_value f new n e.measurements)
      ∙ with_measurements-some e e'
          (recorded is_value f new n e.measurements (idx_with_name n e.measurements))
          (sym (record_value-recorded n v dec e) ∙ h)

  abbrev pub ConsistentAs : MeasurementType → Measurement D F → Type 0
  ConsistentAs duration m = (length m.annotations ≡ length m.durations) × (m.values ≡ [])
  ConsistentAs value m = (length m.annotations ≡ length m.values) × (m.durations ≡ [])
  ConsistentAs note m = (m.annotations ≡ []) × (m.durations ≡ []) × (m.values ≡ [])
  ConsistentAs invalid m = ⊥

  -- As many annotations as durations or values, of the other of which there are none.
  abbrev pub IsConsistent : Measurement D F → Type 0
  IsConsistent m = ConsistentAs m.type m

-- A call on an experiment.
pub data Call (D F : Type 0) : Type 0 where
  note_call : String → Decorations → Call D F
  duration_call : String → D → Decorations → Call D F
  value_call : String → F → Decorations → Call D F

module _ {D F : Type 0} where
  unfoldable pub call : Call D F → Experiment D F → Option (Experiment D F)
  unfolding record_note record_duration record_value
  call (note_call text dec) e = some (record_note text dec e)
  call (duration_call n d dec) e = record_duration n d dec e
  call (value_call n v dec) e = record_value n v dec e

  -- A session; a call that panics leaves the experiment as it was.
  unfoldable pub session : List (Call D F) → Experiment D F → Experiment D F
  unfolding call
  session [] e = e
  session (c ∷ cs) e = elim (call c e) [ none ↦ session cs e | some e' ↦ session cs e' ]

  All-append :
      (P : Measurement D F → Type 0) (ms : List (Measurement D F)) (m : Measurement D F)
      → All P ms
      → P m
      → All P (ms ++ m ∷ [])
  All-append P [] m all p = (p, tt)
  All-append P (x ∷ ms) m (px, all) p = (px, All-append P ms m all p)

  add_duration-ConsistentAs :
      (d : D) (dec : Decorations) (t : MeasurementType) (m : Measurement D F)
      → is_duration t ≡ true
      → ConsistentAs t m
      → ConsistentAs t (add_duration d dec m)
  add_duration-ConsistentAs d dec duration m right (same, empty) =
      (length-snoc m.annotations m.durations dec.annotation d same, empty)
  add_duration-ConsistentAs d dec value m right h = absurd (cc)
  add_duration-ConsistentAs d dec note m right h = absurd (cc)
  add_duration-ConsistentAs d dec invalid m right h = h

  add_value-ConsistentAs :
      (v : F) (dec : Decorations) (t : MeasurementType) (m : Measurement D F)
      → is_value t ≡ true
      → ConsistentAs t m
      → ConsistentAs t (add_value v dec m)
  add_value-ConsistentAs v dec value m right (same, empty) =
      (length-snoc m.annotations m.values dec.annotation v same, empty)
  add_value-ConsistentAs v dec duration m right h = absurd (cc)
  add_value-ConsistentAs v dec note m right h = absurd (cc)
  add_value-ConsistentAs v dec invalid m right h = h

  call-IsConsistent :
      (c : Call D F) (e e' : Experiment D F)
      → call c e ≡ some e'
      → All IsConsistent e.measurements
      → All IsConsistent e'.measurements
  unfolding call record_note new_duration new_value
  call-IsConsistent (note_call text dec) e e' h all =
      subst (λ (x : Experiment D F). All IsConsistent x.measurements) (some-injective h)
        (All-append IsConsistent e.measurements _ all (refl, refl, refl))
  call-IsConsistent (duration_call n d dec) e e' h all =
      put-All is_duration (add_duration d dec) (new_duration n d dec e.title) n IsConsistent
        (refl, refl) (λ m right. add_duration-ConsistentAs d dec m.type m right) e.measurements
        e'.measurements (record_duration-stored n d dec e e' h) all
  call-IsConsistent (value_call n v dec) e e' h all =
      put-All is_value (add_value v dec) (new_value n v dec e.title) n IsConsistent (refl, refl)
        (λ m right. add_value-ConsistentAs v dec m.type m right) e.measurements e'.measurements
        (record_value-stored n v dec e e' h) all

  session-All :
      (cs : List (Call D F)) (e : Experiment D F)
      → All IsConsistent e.measurements
      → All IsConsistent (session cs e).measurements
  unfolding session
  session-All [] e all = all
  session-All (c ∷ cs) e all = elim (Option-cases (call c e)) [
    | inl refused ↦
        let kept : session (c ∷ cs) e ≡ session cs e = ground (arith, refused) in
        subst (All IsConsistent) (sym (ap (λ (x : Experiment D F). x.measurements) kept))
          (session-All cs e all)
    | inr (e', done) ↦
        let moved : session (c ∷ cs) e ≡ session cs e' = ground (arith, done) in
        subst (All IsConsistent) (sym (ap (λ (x : Experiment D F). x.measurements) moved))
          (session-All cs e' (call-IsConsistent c e e' done all))
  ]

  -- Whatever is recorded in a new experiment, panics recovered from included, each of its measurements is
  -- a note, or has one annotation for each duration and no values, or one for each value and no durations.
  pub session-IsConsistent :
      (title : String) (cs : List (Call D F))
      → All IsConsistent (session cs (new_experiment title)).measurements
  unfolding session new_experiment
  session-IsConsistent title cs = session-All cs (new_experiment title) tt
