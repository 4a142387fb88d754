-- ===== src/Gleak/Leaks/Laws.antt =====
-- What HaveLeaked finds.
use mathlib.Core.Path.{subst}
use gomega.Base.{
  ◌∙◌, ℕ, ◌≡◌, ◌≢◌, ◌↔◌, ◌⊎◌, inl, inr, refl, sym, ap, Bool, true, false, ◌==◌, ==_iff, Option,
  none, some, List, [], ◌∷◌, All, arith, Bool-cases,
}
use gomega.Errors.{GoError}
use gomega.Gleak.{Goroutine}
use gomega.Gleak.Leaks.{
  Filter, match_filter, Scan, expected, leaked, scan_error, after_match, scan, Filtered, failed,
  remaining, keep, after_scan, filter, match_leaked,
}

abbrev pub Among : {A : Type 0} → A → List A → Type 0
Among a [] = ⊥
Among a (b ∷ bs) = (a ≡ b) ⊎ Among a bs

-- No filter matches the goroutine.
abbrev pub IsUnmatched : List Filter → Goroutine → Type 0
IsUnmatched fs g = All (λ f. match_filter f g ≡ (false, none)) fs

abbrev pub Fails : List Filter → Goroutine → GoError → Type 0
Fails fs g e = (f : Filter) × Among f fs × ((match_filter f g).1 ≡ some e)

abbrev Scanned : List Filter → Goroutine → Scan → Type 0
Scanned fs g expected = IsUnmatched fs g → ⊥
Scanned fs g leaked = IsUnmatched fs g
Scanned fs g (scan_error e) = Fails fs g e

after_match-Scanned :
    (f : Filter) (fs : List Filter) (g : Goroutine) (v : Bool × Option GoError)
    → match_filter f g ≡ v
    → Scanned fs g (scan fs g)
    → Scanned (f ∷ fs) g (after_match v (scan fs g))
after_match-Scanned f fs g (m, some e) same rest =
    (f, inl refl, ap (λ (v : Bool × Option GoError). v.1) same)
after_match-Scanned f fs g (true, none) same rest = λ unmatched.
    let clash : true ≡ false =
      sym (ap (λ (v : Bool × Option GoError). v.0) same)
      ∙ ap (λ (v : Bool × Option GoError). v.0) unmatched.0 in
    absurd (cc)
after_match-Scanned f fs g (false, none) same rest = also_unmatched (scan fs g) rest
  where
    also_unmatched : (r : Scan) → Scanned fs g r → Scanned (f ∷ fs) g r
    also_unmatched expected rest = λ unmatched. rest unmatched.1
    also_unmatched leaked rest = (same, rest)
    also_unmatched (scan_error e) (k, there, fails) = (k, inr there, fails)

scan-Scanned : (fs : List Filter) (g : Goroutine) → Scanned fs g (scan fs g)
unfolding scan
scan-Scanned [] g = tt
scan-Scanned (f ∷ fs) g = after_match-Scanned f fs g (match_filter f g) refl (scan-Scanned fs g)

-- The goroutines that are left over are those of the list, less the caller, that no filter matches.
abbrev pub AreLeaks : ℕ → List Filter → List Goroutine → List Goroutine → Type 0
AreLeaks my_id fs gs leaks =
    (g : Goroutine) → Among g leaks ↔ (Among g gs × (g.id ≢ my_id) × IsUnmatched fs g)

abbrev pub Filters : ℕ → List Filter → List Goroutine → Filtered → Type 0
Filters my_id fs gs (remaining leaks) = AreLeaks my_id fs gs leaks
Filters my_id fs gs (failed e) = (g : Goroutine) × Among g gs × Fails fs g e

module _ (my_id : ℕ) (fs : List Filter) (h : Goroutine) (gs : List Goroutine) where
  Filters-skip :
      (r : Filtered)
      → ((h.id ≢ my_id) → IsUnmatched fs h → ⊥)
      → Filters my_id fs gs r
      → Filters my_id fs (h ∷ gs) r
  Filters-skip (failed e) never (g, there, fails) = (g, inr there, fails)
  Filters-skip (remaining leaks) never same = λ g. (
    λ there. let (t, mine, unmatched) = (same g).0 there in (inr t, mine, unmatched),
    λ (which, mine, unmatched). elim which [
      | inl first ↦ absurd (
          never (subst (λ (k : Goroutine). k.id ≢ my_id) first mine)
            (subst (IsUnmatched fs) first unmatched))
      | inr later ↦ (same g).1 (later, mine, unmatched)
    ],
  )

  Filters-keep :
      (r : Filtered)
      → (h.id ≢ my_id)
      → IsUnmatched fs h
      → Filters my_id fs gs r
      → Filters my_id fs (h ∷ gs) (keep h r)
  Filters-keep (failed e) mine unmatched (g, there, fails) = (g, inr there, fails)
  Filters-keep (remaining leaks) mine unmatched same = λ g. (
    λ which. elim which [
      | inl first ↦ (
        inl first,
        subst (λ (k : Goroutine). k.id ≢ my_id) (sym first) mine,
        subst (IsUnmatched fs) (sym first) unmatched,
      )
      | inr later ↦ let (t, mine', unmatched') = (same g).0 later in (inr t, mine', unmatched')
    ],
    λ (which, mine', unmatched'). elim which [
      | inl first ↦ inl first
      | inr later ↦ inr ((same g).1 (later, mine', unmatched'))
    ],
  )

  Filters-after_scan :
      (c : Scan) (r : Filtered)
      → (h.id ≢ my_id)
      → Scanned fs h c
      → Filters my_id fs gs r
      → Filters my_id fs (h ∷ gs) (after_scan h c r)
  Filters-after_scan expected r mine scanned same = Filters-skip r (λ m. scanned) same
  Filters-after_scan leaked r mine scanned same = Filters-keep r mine scanned same
  Filters-after_scan (scan_error e) r mine scanned same = (h, inl refl, scanned)

filter-Filters :
    (my_id : ℕ) (fs : List Filter) (gs : List Goroutine) → Filters my_id fs gs (filter my_id fs gs)
unfolding filter
filter-Filters my_id fs [] =
    λ g. ((λ there. absurd there), λ (there, mine, unmatched). absurd there)
filter-Filters my_id fs (h ∷ gs) =
    let rest = filter-Filters my_id fs gs in
    elim (Bool-cases (h.id == my_id)) [
      | inl hit ↦
          let same : filter my_id fs gs ≡ filter my_id fs (h ∷ gs) = ground (arith, hit) in
          subst (Filters my_id fs (h ∷ gs)) same (
            Filters-skip my_id fs h gs (filter my_id fs gs)
              (λ mine unmatched. mine ((==_iff h.id my_id).0 hit)) rest)
      | inr miss ↦
          let same : after_scan h (scan fs h) (filter my_id fs gs) ≡ filter my_id fs (h ∷ gs) =
            ground (arith, miss) in
          subst (Filters my_id fs (h ∷ gs)) same (
            Filters-after_scan my_id fs h gs (scan fs h) (filter my_id fs gs)
              (λ mine. absurd (ground (arith, mine, miss))) (scan-Scanned fs h) rest)
    ]

abbrev pub is_nonempty : List Goroutine → Bool
is_nonempty [] = false
is_nonempty (g ∷ gs) = true

abbrev verdict_of : Filtered → List Goroutine × Bool × Option GoError
verdict_of (failed e) = ([], false, some e)
verdict_of (remaining leaks) = (leaks, is_nonempty leaks, none)

match_leaked-filter :
    (my_id : ℕ) (fs : List Filter) (gs : List Goroutine) (r : Filtered)
    → filter my_id fs gs ≡ r
    → match_leaked my_id fs gs ≡ verdict_of r
unfolding match_leaked
match_leaked-filter my_id fs gs (failed e) same = ground (arith, same)
match_leaked-filter my_id fs gs (remaining []) same = ground (arith, same)
match_leaked-filter my_id fs gs (remaining (g ∷ leaks)) same = ground (arith, same)

-- HaveLeaked fails with an error of one of its filters on one of the goroutines, or leaves in `leaked`
-- exactly the goroutines other than the calling one that no filter matches, and succeeds exactly when
-- there is one.
pub match_leaked-AreLeaks :
    (my_id : ℕ) (fs : List Filter) (gs : List Goroutine)
    → ((e : GoError) × (match_leaked my_id fs gs ≡ ([], false, some e))
        × (g : Goroutine) × Among g gs
        × Fails fs g e)
      ⊎ ((leaks : List Goroutine) × (match_leaked my_id fs gs ≡ (leaks, is_nonempty leaks, none))
          × AreLeaks my_id fs gs leaks)
match_leaked-AreLeaks my_id fs gs = verdicts (filter my_id fs gs) refl (filter-Filters my_id fs gs)
  where
    verdicts :
        (r : Filtered)
        → filter my_id fs gs ≡ r
        → Filters my_id fs gs r
        → ((e : GoError) × (match_leaked my_id fs gs ≡ ([], false, some e))
            × (g : Goroutine) × Among g gs
            × Fails fs g e)
          ⊎ ((leaks : List Goroutine) × (match_leaked my_id fs gs
                ≡ (leaks, is_nonempty leaks, none))
              × AreLeaks my_id fs gs leaks)
    verdicts (failed e) same (g, there, fails) =
        inl (e, match_leaked-filter my_id fs gs (failed e) same, g, there, fails)
    verdicts (remaining leaks) same found =
        inr (leaks, match_leaked-filter my_id fs gs (remaining leaks) same, found)
