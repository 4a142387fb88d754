-- ===== src/Gmeasure/Cache/Examples.antt =====
-- A cache on a concrete disk.
use gomega.Base.{
  ℕ, ◌≡◌, ◌≢◌, refl, ap, inl, inr, Bool, true, false, Option, some, none, List, [], ◌∷◌, arith, All,
}
use gomega.Format.{Text}
use gomega.Gmeasure.Cache.{
  CachedExperimentHeader, Codec, System, path_of, load, list, save, saves, deletes, clears,
  CacheCall, cache_calls,
}
use gomega.Gmeasure.Cache.Refines.{load-cache_calls}

-- JSON of headers and of experiments that are numbers.
data Json : Type 0 where
  header_json : CachedExperimentHeader → Json
  number : ℕ → Json

abbrev hash : Text → Text
hash [] = 97 ∷ []
hash (c ∷ name) = 98 ∷ []

abbrev read_header_json : Json → CachedExperimentHeader × Bool
read_header_json (header_json h) = (h, false)
read_header_json (number n) = (record { name = []; version = 0 }, true)

abbrev read_number : Json → Option ℕ
read_number (header_json h) = none
read_number (number n) = some n

abbrev codec : Codec ℕ Json
codec = record {
  md5 = hash;
  encode_header = header_json;
  decode_header = read_header_json;
  encode_experiment = λ e. some (number e);
  decode_experiment = read_number;
}

abbrev open_system : System
open_system = record { denied = λ path. false; readable = true }

abbrev session : List (CacheCall ℕ)
session = clears ∷ saves (65 ∷ []) 3 7 ∷ saves [] 2 9 ∷ deletes [] ∷ []

hash_plain : (name : Text) → All (λ b. b ≢ 46) (hash name)
hash_plain [] = ((λ same. omega (arith, same)), tt)
hash_plain (c ∷ name) = ((λ same. omega (arith, same)), tt)

abbrev head : Text → ℕ
head [] = 0
head (b ∷ s) = b

hash_apart : path_of codec open_system [] ≢ path_of codec open_system (65 ∷ [])
hash_apart same = let heads : 97 ≡ 98 = ap head same in absurd (omega (arith, heads))

load-cache_calls_example :
    load codec open_system (65 ∷ []) 2 (cache_calls codec open_system session []) ≡ some 7
load-cache_calls_example =
    load-cache_calls codec open_system ((λ h. refl), (λ e. (number e, refl, refl)), hash_plain)
      (λ path. refl) refl (65 ∷ []) 2 session []
      (tt, (inl refl, (inr hash_apart, (inr hash_apart, tt)))) refl

-- List gives the header of what was saved.
listed :
    list codec open_system (save codec open_system (65 ∷ []) 3 7 []).0
    ≡ (record { name = 65 ∷ []; version = 3 } ∷ [], false)
unfolding list save
listed = refl
