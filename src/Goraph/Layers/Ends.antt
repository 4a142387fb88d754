-- ===== src/Goraph/Layers/Ends.antt =====
-- The loop of createSLAPGuideLayers ends.
use gomega.Base.{
  ℕ, zero, suc, ◌+◌, ◌<◌, ◌≤◌, ◌≡◌, ◌⊎◌, inl, inr, refl, ap, ◌∙◌, Bool, true, false, some, List, [],
  ◌∷◌, ◌++◌, if◌then◌else◌, length, arith, Bool-cases, Option-cases,
}
use gomega.Goraph.{EdgeSet, contains, find_by_nodes, is_free}
use gomega.Goraph.Slap.{Used, is_odd}
use gomega.Goraph.Slap.Path.{In}
use gomega.Goraph.Layers.{
  Growth, join, free_nodes, all_used, is_empty, join_right, join_left, over_nodes, over_layer, grow,
  layers_loop, create_slap_guide_layers,
}

-- A node that was not used is, and those that were still are.
abbrev Uses : List ℕ → Used → Used → Type 0
Uses ns u v = (n : ℕ) × In n ns × (u n ≡ false) × (v n ≡ true)

abbrev Keeps : Used → Used → Type 0
Keeps u v = (n : ℕ) → u n ≡ true → v n ≡ true

-- How a growth may go on from one to another.
pub record IsGrowth (ns : List ℕ) (g h : Growth) : Type 0 where
  pub keeps : Keeps g.used h.used
  pub uses : (h.layer ≡ g.layer) ⊎ Uses ns g.used h.used

IsGrowth-refl : (ns : List ℕ) (g : Growth) → IsGrowth ns g g
IsGrowth-refl ns g = record { keeps = λ n u. u; uses = inl refl }

IsGrowth-trans :
    (ns : List ℕ) (f g h : Growth) → IsGrowth ns f g → IsGrowth ns g h → IsGrowth ns f h
IsGrowth-trans ns f g h p q = record {
  keeps = λ n u. q.keeps n (p.keeps n u);
  uses = elim p.uses [
    | inl same_layer ↦ elim q.uses [
      | inl still ↦ inl (still ∙ same_layer)
      | inr (n, member, unused, used) ↦ inr (n, member, ground (arith, p.keeps n, unused), used)
    ]
    | inr (n, member, unused, used) ↦ inr (n, member, unused, q.keeps n used)
  ];
}

IsGrowth-join :
    (ns : List ℕ) (n : ℕ) (done : Bool) (g : Growth)
    → In n ns
    → g.used n ≡ false
    → IsGrowth ns g (join n done g)
IsGrowth-join ns n done g member unused = record {
  keeps = λ k u. ground (arith, u);
  uses = inr (n, member, unused, ground arith);
}

module _ (edges matching : EdgeSet) (ns : List ℕ) where
  join_right-IsGrowth :
      (l n : ℕ) (g : Growth) → In n ns → IsGrowth ns g (join_right edges matching l n g)
  unfolding join_right
  join_right-IsGrowth l n g member = elim (Bool-cases (g.used n)) [
    | inl used ↦ rw used (IsGrowth-refl ns g)
    | inr unused ↦ rw unused (elim (Option-cases (find_by_nodes edges l n)) [
      | inl absent ↦ rw absent (IsGrowth-refl ns g)
      | inr (e, there) ↦ rw there (elim (Bool-cases (contains matching e)) [
        | inl matched ↦ rw matched (IsGrowth-refl ns g)
        | inr free ↦
            rw free
              (IsGrowth-join ns n (if is_free matching n then true else g.is_done) g member unused)
      ])
    ])
  ]

  join_left-IsGrowth :
      (r n : ℕ) (g : Growth) → In n ns → IsGrowth ns g (join_left edges matching r n g)
  unfolding join_left
  join_left-IsGrowth r n g member = elim (Bool-cases (g.used n)) [
    | inl used ↦ rw used (IsGrowth-refl ns g)
    | inr unused ↦ rw unused (elim (Option-cases (find_by_nodes edges n r)) [
      | inl absent ↦ rw absent (IsGrowth-refl ns g)
      | inr (e, there) ↦ rw there (elim (Bool-cases (contains matching e)) [
        | inl matched ↦ rw matched (IsGrowth-join ns n g.is_done g member unused)
        | inr free ↦ rw free (IsGrowth-refl ns g)
      ])
    ])
  ]

module _ (ns : List ℕ) where
  over_nodes-IsGrowth :
      (body : ℕ → Growth → Growth)
      → ((n : ℕ) (g : Growth) → In n ns → IsGrowth ns g (body n g))
      → (ms : List ℕ) → ((n : ℕ) → In n ms → In n ns)
      → (g : Growth) → IsGrowth ns g (over_nodes body ms g)
  unfolding over_nodes
  over_nodes-IsGrowth body grows [] within g = IsGrowth-refl ns g
  over_nodes-IsGrowth body grows (m ∷ ms) within g =
      IsGrowth-trans ns g (body m g) (over_nodes body ms (body m g))
        (grows m g (within m (inl refl)))
        (over_nodes-IsGrowth body grows ms (λ n member. within n (inr member)) (body m g))

  over_layer-IsGrowth :
      (body : ℕ → ℕ → Growth → Growth)
      → ((m n : ℕ) (g : Growth) → In n ns → IsGrowth ns g (body m n g))
      → (ms : List ℕ) (g : Growth) → IsGrowth ns g (over_layer body ms ns g)
  unfolding over_layer
  over_layer-IsGrowth body grows [] g = IsGrowth-refl ns g
  over_layer-IsGrowth body grows (m ∷ ms) g =
      IsGrowth-trans ns g (over_nodes (body m) ns g)
        (over_layer body ms ns (over_nodes (body m) ns g))
        (over_nodes-IsGrowth (body m) (grows m) ns (λ n member. member) g)
        (over_layer-IsGrowth body grows ms (over_nodes (body m) ns g))

-- The nodes that are not used.
abbrev count_unused : Used → List ℕ → ℕ
count_unused u [] = 0
count_unused u (n ∷ ns) = let rest = count_unused u ns in if u n then rest else suc rest

count_unused-Keeps : (u v : Used) (ns : List ℕ) → Keeps u v → count_unused v ns ≤ count_unused u ns
count_unused-Keeps u v [] keeps = omega arith
count_unused-Keeps u v (n ∷ ns) keeps = ground (arith, keeps n, count_unused-Keeps u v ns keeps)

count_unused-Uses :
    (u v : Used) (ns : List ℕ) (n : ℕ)
    → Keeps u v
    → In n ns
    → u n ≡ false
    → v n ≡ true
    → count_unused v ns < count_unused u ns
count_unused-Uses u v [] n keeps member unused used = absurd member
count_unused-Uses u v (m ∷ ns) n keeps (inl same_node) unused used =
    ground (arith, ap u same_node, ap v same_node, count_unused-Keeps u v ns keeps)
count_unused-Uses u v (m ∷ ns) n keeps (inr member) unused used =
    ground (arith, keeps m, count_unused-Uses u v ns n keeps member unused used)

count_unused-length : (u : Used) (ns : List ℕ) → count_unused u ns ≤ length ns
count_unused-length u [] = omega arith
count_unused-length u (n ∷ ns) = ground (arith, count_unused-length u ns)

module _ (edges matching : EdgeSet) (lefts rights : List ℕ) where
  abbrev remaining : Used → ℕ
  remaining u = count_unused u lefts + count_unused u rights

  fewer_lefts :
      (u : Used) (h : Growth)
      → IsGrowth lefts (record { layer = []; used = u; is_done = false }) h
      → (is_empty h.layer ≡ true) ⊎ (remaining h.used < remaining u)
  fewer_lefts u h growth = elim growth.uses [
    | inl still ↦ inl (ap is_empty still)
    | inr (n, member, unused, used) ↦ inr (
        omega (
          arith,
          count_unused-Uses u h.used lefts n growth.keeps member unused used,
          count_unused-Keeps u h.used rights growth.keeps,
        ))
  ]

  fewer_rights :
      (u : Used) (h : Growth)
      → IsGrowth rights (record { layer = []; used = u; is_done = false }) h
      → (is_empty h.layer ≡ true) ⊎ (remaining h.used < remaining u)
  fewer_rights u h growth = elim growth.uses [
    | inl still ↦ inl (ap is_empty still)
    | inr (n, member, unused, used) ↦ inr (
        omega (
          arith,
          count_unused-Uses u h.used rights n growth.keeps member unused used,
          count_unused-Keeps u h.used lefts growth.keeps,
        ))
  ]

  grow-fewer :
      (odd : Bool) (last : List ℕ) (u : Used)
      → let g = grow edges matching lefts rights odd last u in
        (is_empty g.layer ≡ true) ⊎ (remaining g.used < remaining u)
  unfolding grow
  grow-fewer true last u = fewer_rights u (grow edges matching lefts rights true last u) (
      over_layer-IsGrowth rights (join_right edges matching)
        (join_right-IsGrowth edges matching rights) last
        (record { layer = []; used = u; is_done = false }))
  grow-fewer false last u = fewer_lefts u (grow edges matching lefts rights false last u) (
      over_layer-IsGrowth lefts (join_left edges matching) (join_left-IsGrowth edges matching lefts)
        last (record { layer = []; used = u; is_done = false }))

  fewer_than :
      (g : Growth) (u : Used)
      → (is_empty g.layer ≡ true) ⊎ (remaining g.used < remaining u)
      → is_empty g.layer ≡ false
      → remaining g.used < remaining u
  fewer_than g u (inl empty) next = absurd (ground arith)
  fewer_than g u (inr less) next = less

  layers_loop-Ends :
      (fuel : ℕ) (layers : List (List ℕ)) (last : List ℕ) (u : Used)
      → remaining u < fuel
      → (r : List (List ℕ)) × (layers_loop edges matching lefts rights fuel layers last u ≡ some r)
  unfolding layers_loop
  layers_loop-Ends zero layers last u h = absurd (omega arith)
  layers_loop-Ends (suc fuel) layers last u h =
      let g = grow edges matching lefts rights (is_odd (length layers)) last u in
      elim (Bool-cases (is_empty g.layer)) [
        | inl empty ↦ ([], ground (arith, empty))
        | inr next ↦ elim (Bool-cases g.is_done) [
          | inl done ↦ (layers ++ g.layer ∷ [], ground (arith, next, done))
          | inr more ↦
              let less = fewer_than g u (grow-fewer (is_odd (length layers)) last u) next in
              let (r, ends) =
                layers_loop-Ends fuel (layers ++ g.layer ∷ []) g.layer g.used
                  (omega (arith, h, less)) in
              (r, ground (arith, next, more, ends))
        ]
      ]

  -- With as much fuel as there are nodes, and one more, createSLAPGuideLayers ends, on every graph and
  -- for every set of edges as the matching.
  pub create_slap_guide_layers-Ends :
      (r : List (List ℕ)) × (create_slap_guide_layers edges matching lefts rights ≡ some r)
  unfolding create_slap_guide_layers
  create_slap_guide_layers-Ends = elim (Bool-cases (is_empty (free_nodes matching lefts))) [
    | inl empty ↦ ([], ground (arith, empty))
    | inr some_free ↦
        let u = all_used (free_nodes matching lefts) in
        let (r, ends) =
          layers_loop-Ends (suc (length lefts + length rights)) (free_nodes matching lefts ∷ [])
            (free_nodes matching lefts) u
            (omega (arith, count_unused-length u lefts, count_unused-length u rights)) in
        (r, ground (arith, some_free, ends))
  ]
