-- ===== src/Gmeasure/Cache/Files.antt =====
-- Files that are written and removed.
use mathlib.Core.Path.{subst}
use gomega.Base.{
  ◌≡◌, ◌≢◌, ◌⊎◌, inl, inr, refl, sym, ap, ◌∙◌, true, false, ◌==◌, none, some, List, [], ◌∷◌, ◌++◌,
  if◌then◌else◌, arith, Bool-cases, All,
}
use gomega.Format.{Text, equal_text}
use gomega.Format.Equality.{equal_text_refl, equal_text_iff, equal_text_differ}
use gomega.Gmeasure.Cache.{
  Disk, System, Codec, cache_ext, ext_from, is_cache, file_of, remove_file, write_file, names_of,
  clear_loop,
}

abbrev Lists : Text → List Text → Type 0
Lists p [] = ⊥
Lists p (name ∷ names) = (name ≡ p) ⊎ Lists p names

module _ {J : Type 0} where
  pub file_of-removed : (p : Text) (disk : Disk J) → file_of p (remove_file p disk) ≡ none
  file_of-removed p [] = refl
  file_of-removed p ((name, content) ∷ disk) = elim (Bool-cases (equal_text name p)) [
    | inl hit ↦ rw hit (file_of-removed p disk)
    | inr miss ↦ rw (miss, miss) (file_of-removed p disk)
  ]

  pub file_of-remove_file :
      (p q : Text) (disk : Disk J) → p ≢ q → file_of q (remove_file p disk) ≡ file_of q disk
  file_of-remove_file p q [] differ = refl
  file_of-remove_file p q ((name, content) ∷ disk) differ =
      let rest = file_of-remove_file p q disk differ in
      elim (Bool-cases (equal_text name p)) [
        | inl hit ↦
            let same : name ≡ p = equal_text_iff name p hit in
            let miss : equal_text name q ≡ false =
              equal_text_differ name q (λ here. differ (sym same ∙ here)) in
            rw (hit, miss) rest
        | inr miss ↦ rw miss (ap (λ o. if equal_text name q then some content else o) rest)
      ]

  pub file_of-written :
      (p : Text) (content : List J) (disk : Disk J)
      → file_of p (write_file p content disk) ≡ some content
  file_of-written p content disk = rw (equal_text_refl p) refl

  pub file_of-write_file :
      (p q : Text) (content : List J) (disk : Disk J)
      → p ≢ q
      → file_of q (write_file p content disk) ≡ file_of q disk
  file_of-write_file p q content disk differ =
      rw (equal_text_differ p q differ) (file_of-remove_file p q disk differ)

  pub file_of-missing :
      (p q : Text) (disk : Disk J) → file_of q disk ≡ none → file_of q (remove_file p disk) ≡ none
  file_of-missing p q disk gone = elim (Bool-cases (equal_text p q)) [
    | inl hit ↦
        subst (λ t. file_of t (remove_file p disk) ≡ none) (equal_text_iff p q hit)
          (file_of-removed p disk)
    | inr miss ↦
        let differ : p ≢ q = λ same.
          let hit : equal_text p q ≡ true = ap (equal_text p) (sym same) ∙ equal_text_refl p in
          absurd (ground (arith, hit, miss)) in
        file_of-remove_file p q disk differ ∙ gone
  ]

module _ {E J : Type 0} (c : Codec E J) (sys : System) where
  names_of-Lists :
      (p : Text) (disk : Disk J) → (file_of p disk ≡ none) ⊎ Lists p (names_of c sys disk)
  names_of-Lists p [] = inl refl
  names_of-Lists p ((name, content) ∷ disk) = elim (Bool-cases (equal_text name p)) [
    | inl hit ↦ inr (inl (equal_text_iff name p hit))
    | inr miss ↦ elim (names_of-Lists p disk) [
      | inl gone ↦ inl (rw miss gone)
      | inr there ↦ inr (inr there)
    ]
  ]

  clear_loop-file_of :
      ((name : Text) → sys.denied name ≡ false)
      → (names : List Text) (p : Text) (disk : Disk J) → is_cache p ≡ true
      → (file_of p disk ≡ none) ⊎ Lists p names
      → file_of p (clear_loop c sys names disk).0 ≡ none
  clear_loop-file_of allowed [] p disk ours (inl gone) = gone
  clear_loop-file_of allowed [] p disk ours (inr there) = absurd there
  clear_loop-file_of allowed (name ∷ names) p disk ours there = elim (Bool-cases (is_cache name)) [
    | inr other ↦ rw other (
        clear_loop-file_of allowed names p disk ours (elim there [
          | inl gone ↦ inl gone
          | inr later ↦ elim later [
            | inl same ↦
                let here : is_cache name ≡ true = ap is_cache same ∙ ours in
                absurd (ground (arith, here, other))
            | inr further ↦ inr further
          ]
        ]))
    | inl cached ↦
        rw (cached, allowed name)
          (clear_loop-file_of allowed names p (remove_file name disk) ours (elim there [
            | inl gone ↦ inl (file_of-missing name p disk gone)
            | inr later ↦ elim later [
              | inl same ↦ inl (
                  subst (λ t. file_of t (remove_file name disk) ≡ none) same
                    (file_of-removed name disk))
              | inr further ↦ inr further
            ]
          ]))
  ]

  -- Clear removes every file with the extension.
  pub clear_loop-none :
      ((name : Text) → sys.denied name ≡ false)
      → (p : Text) (disk : Disk J) → is_cache p ≡ true
      → file_of p (clear_loop c sys (names_of c sys disk) disk).0 ≡ none
  clear_loop-none allowed p disk ours =
      clear_loop-file_of allowed (names_of c sys disk) p disk ours (names_of-Lists p disk)

ext_from-append : (h t : Text) → All (λ b. b ≢ 46) h → ext_from [] (h ++ t) ≡ ext_from [] t
ext_from-append [] t plain = refl
ext_from-append (b ∷ h) t (differ, plain) =
    let miss : b == 46 ≡ false = ground (arith, differ) in rw miss (ext_from-append h t plain)

-- A name without a dot and the extension make a file of the cache.
pub is_cache-append : (h : Text) → All (λ b. b ≢ 46) h → is_cache (h ++ cache_ext) ≡ true
is_cache-append h plain = rw (ext_from-append h cache_ext plain) refl
