-- ===== src/Goraph/Slap/Path.antt =====
-- That a SLAP that is found is a path down the guide layers.
use mathlib.Core.Path.{subst}
use mathlib.Core.List.{append_assoc, append-nil}
use gomega.Base.{
  ℕ, zero, suc, ◌-◌, ◌≡◌, ◌∙◌, ◌⊎◌, refl, sym, ap, inl, inr, true, not, Option, none, some, List,
  [], ◌∷◌, ◌++◌, length, arith, Option-cases,
}
use gomega.Goraph.{Edge, EdgeSet, contains, find_by_nodes}
use gomega.Goraph.Slap.{
  Used, set_used, is_odd, layer, step_edge, scan_next, find_slap, find_disjoint_slap,
}

abbrev pub In : ℕ → List ℕ → Type 0
In n [] = ⊥
In n (m ∷ ms) = (n ≡ m) ⊎ In n ms

-- A path from a node of a level down to level 0: one edge of the graph to a node of each lower layer,
-- in the matching exactly when it leads from an even level.
abbrev pub IsSlap : EdgeSet → EdgeSet → List (List ℕ) → ℕ → ℕ → EdgeSet → Type 0
IsSlap edges matching layers zero n [] = Unit {0}
IsSlap edges matching layers zero n (e ∷ path) = ⊥
IsSlap edges matching layers (suc l) n [] = ⊥
IsSlap edges matching layers (suc l) n (e ∷ path) =
    (next : ℕ) × In next (layer layers l)
    × (find_by_nodes edges n next ≡ some e)
    × (contains matching e ≡ not (is_odd (suc l)))
    × IsSlap edges matching layers l next path

step_edge-some :
    (edges matching : EdgeSet) (level : ℕ) (used : Used) (n next : ℕ) (e : Edge)
    → step_edge edges matching level used n next ≡ some e
    → (find_by_nodes edges n next ≡ some e) × (contains matching e ≡ not (is_odd level))
unfolding step_edge
step_edge-some edges matching level used n next e h = ground (arith, h)

some-injective : {p q : EdgeSet} → some p ≡ some q → p ≡ q
some-injective h = cc

module _ (search : ℕ → EdgeSet → Used → Option EdgeSet × Used) (take : Used → ℕ → Option Edge)
    (n : ℕ) (slap : EdgeSet) (next : ℕ) (rest : List ℕ) (used : Used) where
  scan_next-skip :
      take used next ≡ none
      → scan_next search take n slap (next ∷ rest) used ≡ scan_next search take n slap rest used
  unfolding scan_next
  scan_next-skip h = ground (arith, h)

  scan_next-found :
      (e : Edge) (path : EdgeSet)
      → take used next ≡ some e
      → (search next (slap ++ e ∷ []) used).0 ≡ some path
      → (scan_next search take n slap (next ∷ rest) used).0 ≡ some path
  unfolding scan_next
  scan_next-found e path h k = ground (arith, h, k)

  scan_next-missed :
      (e : Edge)
      → take used next ≡ some e
      → (search next (slap ++ e ∷ []) used).0 ≡ none
      → scan_next search take n slap (next ∷ rest) used
        ≡ scan_next search take n slap rest (search next (slap ++ e ∷ []) used).1
  unfolding scan_next
  scan_next-missed e h k = ground (arith, h, k)

module _ (search : ℕ → EdgeSet → Used → Option EdgeSet × Used) (take : Used → ℕ → Option Edge)
    (T : ℕ → Edge → Type 0) (P : ℕ → EdgeSet → Type 0)
    (take-T : (used : Used) (next : ℕ) (e : Edge) → take used next ≡ some e → T next e)
    (search-P : (n : ℕ) (slap : EdgeSet) (used : Used) (path : EdgeSet)
      → (search n slap used).0 ≡ some path
      → (p : EdgeSet) × (path ≡ slap ++ p) × P n p) where
  scan_next-path :
      (n : ℕ) (slap : EdgeSet) (ns : List ℕ) (used : Used) (path : EdgeSet)
      → (scan_next search take n slap ns used).0 ≡ some path
      → (next : ℕ) × (e : Edge) × (p : EdgeSet) × In next ns
        × T next e
        × P next p
        × (path ≡ slap ++ e ∷ p)
  unfolding scan_next
  scan_next-path n slap [] used path h = absurd (cc)
  scan_next-path n slap (next ∷ rest) used path h = elim (Option-cases (take used next)) [
    | inl skipped ↦ later (
        scan_next-path n slap rest used path
          (sym (ap (λ r. r.0) (scan_next-skip search take n slap next rest used skipped)) ∙ h))
    | inr (e, taken) ↦ elim (Option-cases (search next (slap ++ e ∷ []) used).0) [
      | inl missed ↦ later (
          scan_next-path n slap rest (search next (slap ++ e ∷ []) used).1 path (
            sym (ap (λ r. r.0) (scan_next-missed search take n slap next rest used e taken missed))
            ∙ h))
      | inr (q, found) ↦
          let (p, split, holds) = search-P next (slap ++ e ∷ []) used q found in
          (
            next,
            e,
            p,
            inl refl,
            take-T used next e taken,
            holds,
            some-injective
                  (sym h ∙ scan_next-found search take n slap next rest used e q taken found)
                ∙ (split ∙ append_assoc slap (e ∷ []) p),
          )
    ]
  ]
    where
      later :
          (x : ℕ) × (e : Edge) × (p : EdgeSet) × In x rest × T x e × P x p × (path ≡ slap ++ e ∷ p)
          → (x : ℕ) × (e : Edge) × (p : EdgeSet) × In x (next ∷ rest)
            × T x e
            × P x p
            × (path ≡ slap ++ e ∷ p)
      later (x, e, p, member, t, holds, split) = (x, e, p, inr member, t, holds, split)

find_slap-IsSlap :
    (edges matching : EdgeSet) (layers : List (List ℕ)) (level n : ℕ) (slap : EdgeSet) (used : Used)
    (path : EdgeSet)
    → (find_slap edges matching layers level n slap used).0 ≡ some path
    → (p : EdgeSet) × (path ≡ slap ++ p) × IsSlap edges matching layers level n p
unfolding find_slap
find_slap-IsSlap edges matching layers zero n slap used path h =
    ([], sym (some-injective h) ∙ sym (append-nil slap), tt)
find_slap-IsSlap edges matching layers (suc l) n slap used path h =
    let (next, e, p, member, (edge, alternates), holds, split) =
      scan_next-path (find_slap edges matching layers l)
        (λ used' next. step_edge edges matching (suc l) used' n next)
        (λ next e.
          (find_by_nodes edges n next ≡ some e) × (contains matching e ≡ not (is_odd (suc l))))
        (IsSlap edges matching layers l)
        (λ used' next e t. step_edge-some edges matching (suc l) used' n next e t)
        (find_slap-IsSlap edges matching layers l) n slap (layer layers l) (set_used used n true)
        path h in
    (e ∷ p, split, (next, member, edge, alternates, holds))

-- A path that findDisjointSLAP finds leads from its start in the last guide layer down to layer 0: each
-- edge is the graph's between its node and a node of the next lower layer, and is in the matching exactly
-- when it leads from a layer of even index.
pub find_disjoint_slap-IsSlap :
    (edges matching : EdgeSet) (layers : List (List ℕ)) (start : ℕ) (used : Used) (path : EdgeSet)
    → (find_disjoint_slap edges matching layers start used).0 ≡ some path
    → IsSlap edges matching layers (length layers - 1) start path
unfolding find_disjoint_slap
find_disjoint_slap-IsSlap edges matching [] start used path h = absurd (cc)
find_disjoint_slap-IsSlap edges matching (ns ∷ nss) start used path h =
    let top : length (ns ∷ nss) - 1 ≡ length nss = omega arith in
    let (p, same_path, holds) =
      find_slap-IsSlap edges matching (ns ∷ nss) (length nss) start [] used path h in
    subst (λ l. IsSlap edges matching (ns ∷ nss) l start path) (sym top)
      (subst (IsSlap edges matching (ns ∷ nss) (length nss) start) (sym same_path) holds)
