-- ===== src/Gmeasure/Cache/Refines.antt =====
-- The cache as a map from names to versions and experiments.
use mathlib.Core.Path.{subst}
use gomega.Base.{
  ℕ, ◌≡◌, ◌≢◌, ◌⊎◌, inl, inr, refl, sym, ap, ◌∙◌, true, false, ltb, Option, none, some, List, [],
  ◌∷◌, if◌then◌else◌, All,
}
use gomega.Format.{Text, equal_text}
use gomega.Format.Equality.{equal_text_refl, equal_text_differ}
use gomega.Gmeasure.Cache.{
  CachedExperimentHeader, Codec, System, Disk, file_of, path_of, contents, opened, load, save,
  delete, clear, CacheCall, saves, deletes, clears, cache_calls,
}
use gomega.Gmeasure.Cache.Files.{
  file_of-removed, file_of-remove_file, file_of-written, file_of-write_file, clear_loop-none,
  is_cache-append,
}

-- What the calls leave under a name, from what was there.
abbrev pub stored : {E : Type 0} → Text → List (CacheCall E) → Option (ℕ × E) → Option (ℕ × E)
stored name [] before = before
stored name (saves other version experiment ∷ calls) before =
    stored name calls (if equal_text other name then some (version, experiment) else before)
stored name (deletes other ∷ calls) before =
    stored name calls (if equal_text other name then none else before)
stored name (clears ∷ calls) before = stored name calls none

-- The experiment, if it is of the version or a later one.
abbrev pub answer : {E : Type 0} → ℕ → Option (ℕ × E) → Option E
answer version none = none
answer version (some (cached, experiment)) = if ltb cached version then none else some experiment

module _ {E J : Type 0} (c : Codec E J) (sys : System) where
  -- Headers and experiments that are encoded can be decoded, and MD5 is written without dots.
  abbrev pub IsLawful : Type 0
  IsLawful =
      ((h : CachedExperimentHeader) → c.decode_header (c.encode_header h) ≡ (h, false))
      × ((e : E) → (j : J) × (c.encode_experiment e ≡ some j) × (c.decode_experiment j ≡ some e))
      × ((name : Text) → All (λ b. b ≢ 46) (c.md5 name))

  -- A call is for a name or for another one whose file is another.
  abbrev pub IsApart : Text → CacheCall E → Type 0
  IsApart name (saves other version experiment) =
      (other ≡ name) ⊎ (path_of c sys other ≢ path_of c sys name)
  IsApart name (deletes other) = (other ≡ name) ⊎ (path_of c sys other ≢ path_of c sys name)
  IsApart name clears = Unit {0}

  -- The file that stands for what is stored under a name.
  abbrev file_for : Text → Option (ℕ × E) → Option (List J)
  file_for name none = none
  file_for name (some (version, experiment)) = some (
      contents c sys (c.encode_header (record { name = name; version = version }))
        (c.encode_experiment experiment))

  module _ (lawful : IsLawful) (allowed : (path : Text) → sys.denied path ≡ false)
      (open_ : sys.readable ≡ true) where
    saved_same :
        (name : Text) (version : ℕ) (e : E) (disk : Disk J)
        → file_of (path_of c sys name) (save c sys name version e disk).0
          ≡ file_for name (some (version, e))
    unfolding save
    saved_same name version e disk = rw (allowed (path_of c sys name)) (
        file_of-written (path_of c sys name)
          (contents c sys (c.encode_header (record { name = name; version = version }))
            (c.encode_experiment e))
          disk)

    deleted_same :
        (name : Text) (disk : Disk J)
        → file_of (path_of c sys name) (delete c sys name disk).0 ≡ none
    unfolding delete
    deleted_same name disk =
        rw (allowed (path_of c sys name)) (file_of-removed (path_of c sys name) disk)

    saved :
        (name other : Text) (version : ℕ) (e : E) (disk : Disk J) (s : Option (ℕ × E))
        → (other ≡ name) ⊎ (path_of c sys other ≢ path_of c sys name)
        → file_of (path_of c sys name) disk ≡ file_for name s
        → file_of (path_of c sys name) (save c sys other version e disk).0
          ≡ file_for name (if equal_text other name then some (version, e) else s)
    unfolding save
    saved name other version e disk s apart before = elim apart [
      | inl same ↦
          let hit : equal_text other name ≡ true =
            ap (λ t. equal_text t name) same ∙ equal_text_refl name in
          subst
            (λ t.
              file_of (path_of c sys t) (save c sys other version e disk).0
              ≡ file_for t (some (version, e)))
            same (saved_same other version e disk)
          ∙ ap (λ b. file_for name (if b then some (version, e) else s)) (sym hit)
      | inr differ ↦
          let miss : equal_text other name ≡ false =
            equal_text_differ other name (λ same. differ (ap (path_of c sys) same)) in
          rw (allowed (path_of c sys other), miss)
            (file_of-write_file (path_of c sys other) (path_of c sys name)
                (contents c sys (c.encode_header (record { name = other; version = version }))
                  (c.encode_experiment e))
                disk differ
              ∙ before)
    ]

    deleted :
        (name other : Text) (disk : Disk J) (s : Option (ℕ × E))
        → (other ≡ name) ⊎ (path_of c sys other ≢ path_of c sys name)
        → file_of (path_of c sys name) disk ≡ file_for name s
        → file_of (path_of c sys name) (delete c sys other disk).0
          ≡ file_for name (if equal_text other name then none else s)
    unfolding delete
    deleted name other disk s apart before = elim apart [
      | inl same ↦
          let hit : equal_text other name ≡ true =
            ap (λ t. equal_text t name) same ∙ equal_text_refl name in
          subst (λ t. file_of (path_of c sys t) (delete c sys other disk).0 ≡ none) same
            (deleted_same other disk)
          ∙ ap (λ b. file_for name (if b then none else s)) (sym hit)
      | inr differ ↦
          let miss : equal_text other name ≡ false =
            equal_text_differ other name (λ same. differ (ap (path_of c sys) same)) in
          rw (allowed (path_of c sys other), miss)
            (file_of-remove_file (path_of c sys other) (path_of c sys name) disk differ ∙ before)
    ]

    cache_calls-file_of :
        (name : Text) (calls : List (CacheCall E)) (disk : Disk J) (s : Option (ℕ × E))
        → All (IsApart name) calls
        → file_of (path_of c sys name) disk ≡ file_for name s
        → file_of (path_of c sys name) (cache_calls c sys calls disk)
          ≡ file_for name (stored name calls s)
    unfolding clear
    cache_calls-file_of name [] disk s apart before = before
    cache_calls-file_of name (saves other version e ∷ calls) disk s (here, apart) before =
        cache_calls-file_of name calls (save c sys other version e disk).0
          (if equal_text other name then some (version, e) else s) apart
          (saved name other version e disk s here before)
    cache_calls-file_of name (deletes other ∷ calls) disk s (here, apart) before =
        cache_calls-file_of name calls (delete c sys other disk).0
          (if equal_text other name then none else s) apart (deleted name other disk s here before)
    cache_calls-file_of name (clears ∷ calls) disk s (_, apart) before =
        cache_calls-file_of name calls (clear c sys disk).0 none apart (
          rw open_ (
            clear_loop-none c sys allowed (path_of c sys name) disk
              (is_cache-append (c.md5 name) (lawful.2 name))))

    opened-answer :
        (name : Text) (version : ℕ) (s : Option (ℕ × E))
        → opened c sys version (file_for name s) ≡ answer version s
    opened-answer name version none = refl
    opened-answer name version (some (cached, e)) =
        let (j, encoded, decoded) = lawful.1 e in
        rw (encoded, lawful.0 (record { name = name; version = cached }), decoded) refl

    -- Where nothing is refused and the files of other names are other files, Load after any calls of
    -- Save, Delete and Clear, on a disk that had no file of the name, gives the experiment that was
    -- last saved under the name and not deleted or cleared since, if its version is the one asked for
    -- or a later one, and nothing otherwise.
    pub load-cache_calls :
        (name : Text) (version : ℕ) (calls : List (CacheCall E)) (disk : Disk J)
        → All (IsApart name) calls
        → file_of (path_of c sys name) disk ≡ none
        → load c sys name version (cache_calls c sys calls disk)
          ≡ answer version (stored name calls none)
    unfolding load
    load-cache_calls name version calls disk apart fresh = rw (allowed (path_of c sys name)) (
        ap (opened c sys version) (cache_calls-file_of name calls disk none apart fresh)
        ∙ opened-answer name version (stored name calls none))
