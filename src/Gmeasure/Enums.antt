-- ===== src/Gmeasure/Enums.antt =====
-- gmeasure/enum_support.go, with encoding/json as a parameter.
use Prim.Native.String.{String}
use gomega.Base.{
  is_some, ◌⊎◌, ℕ, ◌≡◌, ◌≤◌, Bool, true, false, not, ◌&&◌, ◌||◌, ◌==◌, ltb, Option, none, some,
  List, [], ◌∷◌, if◌then◌else◌, ap, sym, ◌∙◌, inl, inr, refl, arith, Bool-cases, Option-cases,
}
use gomega.Gmeasure.{is_name}
use text.Mathlib.TextEquality.{eq_iff}

-- `json.Marshal` of a string or of nil, and `json.Unmarshal` into a string that is "" before.
pub record Json (B : Type 0) : Type 0 where
  pub marshal : Option String → B
  pub unmarshal : B → Option String

pub record EnumSupport : Type 0 where
  pub to_string : List (ℕ × String)
  pub to_enum : List (String × ℕ)
  pub max_enum : ℕ

abbrev pub string_at : ℕ → List (ℕ × String) → Option String
string_at e [] = none
string_at e ((k, v) ∷ ps) = let rest = string_at e ps in if k == e then some v else rest

abbrev or_empty : Option String → String
or_empty none = ""
or_empty (some s) = s

abbrev pub enum_at : String → List (String × ℕ) → ℕ
enum_at s [] = 0
enum_at s ((v, k) ∷ ps) = let rest = enum_at s ps in if is_name v s then k else rest

-- The loop of newEnumSupport over the map's pairs, in an order that Go does not say.
abbrev enum_loop : List (ℕ × String) → List (String × ℕ) → ℕ → List (String × ℕ) × ℕ
enum_loop [] to_enum max = (to_enum, max)
enum_loop ((k, v) ∷ ps) to_enum max = enum_loop ps ((v, k) ∷ to_enum) (if ltb max k then k else max)

unfoldable pub new_enum_support : List (ℕ × String) → EnumSupport
new_enum_support ps =
    let made = enum_loop ps [] 0 in record { to_string = ps; to_enum = made.0; max_enum = made.1 }

unfoldable pub enum_string : EnumSupport → ℕ → String
enum_string es e =
    if ltb es.max_enum e
    then or_empty (string_at 0 es.to_string)
    else or_empty (string_at e es.to_string)

module _ {B : Type 0} (json : Json B) where
  unfoldable pub unmarsh_json : EnumSupport → B → Option ℕ
  unmarsh_json es b = elim (json.unmarshal b) [
    | none ↦ none
    | some dec ↦ some (enum_at dec es.to_enum)
  ]

  unfoldable pub marsh_json : EnumSupport → ℕ → B
  marsh_json es e =
      if (e == 0) || ltb es.max_enum e
      then json.marshal none
      else json.marshal (some (or_empty (string_at e es.to_string)))

-- Every pair with the name v has the number k.
abbrev pub tells : ℕ → String → List (ℕ × String) → Bool
tells k v [] = true
tells k v ((k', v') ∷ ps) = (not (is_name v' v) || (k' == k)) && tells k v ps

-- No two of the pairs `ps` and `all` have one name and two numbers.
abbrev one_to_one : List (ℕ × String) → List (ℕ × String) → Bool
one_to_one every [] = true
one_to_one every ((k, v) ∷ ps) = tells k v every && one_to_one every ps

abbrev pub is_one_to_one : List (ℕ × String) → Bool
is_one_to_one ps = tells 0 "" ps && one_to_one ps ps

enum_loop-tells :
    (k : ℕ) (v : String) (ps : List (ℕ × String)) (acc : List (String × ℕ)) (m : ℕ)
    → tells k v ps ≡ true
    → enum_at v acc ≡ k
    → enum_at v (enum_loop ps acc m).0 ≡ k
enum_loop-tells k v [] acc m told known = known
enum_loop-tells k v ((k', v') ∷ ps) acc m told known = elim (Bool-cases (is_name v' v)) [
  | inl hit ↦
      enum_loop-tells k v ps ((v', k') ∷ acc) (if ltb m k' then k' else m)
        (ground (arith, told, hit)) (ground (arith, told, hit))
  | inr miss ↦
      enum_loop-tells k v ps ((v', k') ∷ acc) (if ltb m k' then k' else m)
        (ground (arith, told, miss)) (ground (arith, known, miss))
]

enum_loop-string_at :
    (k : ℕ) (v : String) (ps : List (ℕ × String)) (acc : List (String × ℕ)) (m : ℕ)
    → tells k v ps ≡ true
    → string_at k ps ≡ some v
    → enum_at v (enum_loop ps acc m).0 ≡ k
enum_loop-string_at k v [] acc m told there = absurd (cc)
enum_loop-string_at k v ((k', v') ∷ ps) acc m told there = elim (Bool-cases (k' == k)) [
  | inl hit ↦
      enum_loop-tells k v ps ((v', k') ∷ acc) (if ltb m k' then k' else m) (ground (arith, told))
        (ground (arith, there, hit, eq_iff v' v))
  | inr miss ↦
      enum_loop-string_at k v ps ((v', k') ∷ acc) (if ltb m k' then k' else m)
        (ground (arith, told)) (ground (arith, there, miss))
]

enum_loop-grows :
    (ps : List (ℕ × String)) (acc : List (String × ℕ)) (m : ℕ) → m ≤ (enum_loop ps acc m).1
enum_loop-grows [] acc m = omega arith
enum_loop-grows ((k, v) ∷ ps) acc m =
    let larger : m ≤ (if ltb m k then k else m) = ground arith in
    omega (arith, larger, enum_loop-grows ps ((v, k) ∷ acc) (if ltb m k then k else m))

enum_loop-max :
    (k : ℕ) (v : String) (ps : List (ℕ × String)) (acc : List (String × ℕ)) (m : ℕ)
    → string_at k ps ≡ some v
    → k ≤ (enum_loop ps acc m).1
enum_loop-max k v [] acc m there = absurd (cc)
enum_loop-max k v ((k', v') ∷ ps) acc m there = elim (Bool-cases (k' == k)) [
  | inl hit ↦
      let larger : k ≤ (if ltb m k' then k' else m) = ground (arith, hit) in
      omega (arith, larger, enum_loop-grows ps ((v', k') ∷ acc) (if ltb m k' then k' else m))
  | inr miss ↦
      enum_loop-max k v ps ((v', k') ∷ acc) (if ltb m k' then k' else m)
        (ground (arith, there, miss))
]

one_to_one-tells :
    (k : ℕ) (v : String) (every ps : List (ℕ × String))
    → one_to_one every ps ≡ true
    → string_at k ps ≡ some v
    → tells k v every ≡ true
one_to_one-tells k v every [] told there = absurd (cc)
one_to_one-tells k v every ((k', v') ∷ ps) told there = elim (Bool-cases (k' == k)) [
  | inl hit ↦
      let same_number : k' ≡ k = ground (arith, hit) in
      let same_name : v' ≡ v = ground (arith, there, hit) in
      ap (λ x. tells x v every) (sym same_number)
      ∙ ap (λ x. tells k' x every) (sym same_name)
      ∙ ground (arith, told)
  | inr miss ↦ one_to_one-tells k v every ps (ground (arith, told)) (ground (arith, there, miss))
]

module _ {B : Type 0} (json : Json B) (ps : List (ℕ × String)) where
  unmarsh_json-some :
      (b : B) (v : String)
      → json.unmarshal b ≡ some v
      → unmarsh_json json (new_enum_support ps) b ≡ some (enum_at v (enum_loop ps [] 0).0)
  unfolding unmarsh_json new_enum_support
  unmarsh_json-some b v read = ground (arith, read)

  unmarsh_json-empty :
      (b : B)
      → json.unmarshal b ≡ some ""
      → tells 0 "" ps ≡ true
      → unmarsh_json json (new_enum_support ps) b ≡ some 0
  unmarsh_json-empty b read told =
      unmarsh_json-some b "" read ∙ ap some (enum_loop-tells 0 "" ps [] 0 told refl)

  module _ (strings : (s : String) → json.unmarshal (json.marshal (some s)) ≡ some s) where
    named_back :
        (e : ℕ) (v : String)
        → string_at e ps ≡ some v
        → (e == 0) ≡ false
        → is_one_to_one ps ≡ true
        → unmarsh_json json (new_enum_support ps) (marsh_json json (new_enum_support ps) e) ≡ some e
    unfolding marsh_json new_enum_support
    named_back e v there positive distinct =
        let written : marsh_json json (new_enum_support ps) e ≡ json.marshal (some v) =
          ground (arith, there, positive, enum_loop-max e v ps [] 0 there) in
        ap (unmarsh_json json (new_enum_support ps)) written
        ∙ (unmarsh_json-some (json.marshal (some v)) v (strings v)
            ∙ ap some (
                enum_loop-string_at e v ps [] 0
                  (one_to_one-tells e v ps ps (ground (arith, distinct)) there) there))

    nameless_back :
        (e : ℕ)
        → (string_at e ps ≡ none) ⊎ ((e == 0) ≡ true)
        → json.unmarshal (json.marshal none) ≡ some ""
        → tells 0 "" ps ≡ true
        → unmarsh_json json (new_enum_support ps) (marsh_json json (new_enum_support ps) e) ≡ some 0
    unfolding marsh_json new_enum_support
    nameless_back e absent null told = elim (Bool-cases ((e == 0) || ltb (enum_loop ps [] 0).1 e)) [
      | inl nothing ↦
          let written : marsh_json json (new_enum_support ps) e ≡ json.marshal none =
            ground (arith, nothing) in
          unmarsh_json-empty (marsh_json json (new_enum_support ps) e)
            (ap json.unmarshal written ∙ null) told
      | inr something ↦ elim absent [
        | inr origin ↦ absurd (ground (arith, something, origin))
        | inl missing ↦
            let written : marsh_json json (new_enum_support ps) e ≡ json.marshal (some "") =
              ground (arith, something, missing) in
            unmarsh_json-empty (marsh_json json (new_enum_support ps) e)
              (ap json.unmarshal written ∙ strings "") told
      ]
    ]

-- Where JSON reads back the strings and the null that it writes, and no two numbers have one name, nor a
-- number above 0 the empty name, a number that has a name is read back from what it is written as, and
-- every other number is read back as 0.
pub unmarsh_json-marsh_json :
    {B : Type 0} (json : Json B) (ps : List (ℕ × String)) (e : ℕ)
    → json.unmarshal (json.marshal none) ≡ some ""
    → ((s : String) → json.unmarshal (json.marshal (some s)) ≡ some s)
    → is_one_to_one ps ≡ true
    → unmarsh_json json (new_enum_support ps) (marsh_json json (new_enum_support ps) e)
      ≡ some (if is_some (string_at e ps) then e else 0)
unmarsh_json-marsh_json json ps e null strings distinct =
    let told : tells 0 "" ps ≡ true = ground (arith, distinct) in
    elim (Option-cases (string_at e ps)) [
      | inl absent ↦ nameless_back json ps strings e (inl absent) null told ∙ ground (arith, absent)
      | inr (v, there) ↦ elim (Bool-cases (e == 0)) [
        | inl origin ↦
            nameless_back json ps strings e (inr origin) null told ∙ ground (arith, there, origin)
        | inr positive ↦
            named_back json ps strings e v there positive distinct ∙ ground (arith, there)
      ]
    ]
