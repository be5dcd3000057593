-- ===== src/ServerConfig/Json.antt =====
-- What src/server/config.h uses of the JSON library: values, objects and conversions. `none` stands for
-- an exception of the library. A text is a list of bytes; a `std::unordered_map` with texts as keys is
-- an association list, whose order says nothing. `dump` gives what is printed, and whether it came to
-- the end without an exception; `extract` is the operator `>>`, which leaves alone what follows the
-- value, and `parse` does not.
use Prim.Native.String.{String}
use text.Mathlib.Text.{◌==◌ as str_eq}
use text.Mathlib.TextEquality.{eq_iff}
use zero_latency_yolo.Base.{
  ℕ, ◌^◌, ◌%◌, ◌<◌, ◌≤◌, ◌≡◌, refl, ap, ◌∙◌, subst, Bool, true, false, List, [], ◌∷◌, Option, none,
  some, ◌||◌, ◌&&◌, not, if◌then◌else◌, arith, Bool-cases, inl, inr,
}

-- The first entry under a key.
abbrev pub find_key {ℓ} : {V : Type ℓ} → String → List (String × V) → Option V
find_key key [] = none
find_key key ((k, v) ∷ more) = if str_eq k key then some v else find_key key more

abbrev pub has_key {ℓ} : {V : Type ℓ} → String → List (String × V) → Bool
has_key key [] = false
has_key key ((k, v) ∷ more) = str_eq k key || has_key key more

-- No key stands twice.
abbrev pub distinct {ℓ} : {V : Type ℓ} → List (String × V) → Bool
distinct [] = true
distinct ((k, v) ∷ more) = not (has_key k more) && distinct more

-- The bits of a `float` that is a number or an infinity.
abbrev pub IsNumber : ℕ → Type 0
IsNumber x = (x < 2 ^ 32) × (x % 2 ^ 31 ≤ 2139095040)

pub record Json : Type 1 where
  pub Value : Type 0
  pub object : List (String × Value) → Value
  pub member : Value → String → Option Value
  pub items : Value → Option (List (String × Value))
  pub assign : Value → String → Value → Value
  pub of_unsigned : ℕ → Value
  pub to_unsigned : ℕ → Value → Option ℕ
  pub of_int : ℕ → Value
  pub to_int : Value → Option ℕ
  pub of_bool : Bool → Value
  pub to_bool : Value → Option Bool
  pub of_text : List ℕ → Value
  pub to_text : Value → Option (List ℕ)
  pub of_float : ℕ → Value
  pub to_float : Value → Option ℕ
  pub of_weights : List (String × ℕ) → Value
  pub to_weights : Value → Option (List (String × ℕ))
  pub dump : Value → List ℕ × Bool
  pub parse : List ℕ → Option Value
  pub extract : List ℕ → Option Value

-- What the library documents of these: the members of an object, what `operator[]` assigns, and that
-- a conversion back gives the value that was converted, where its type holds it: for a map with
-- different keys, a map with the same value under each key.
pub record IsJson (j : Json) : Type 0 where
  pub member_object :
      (kvs : List (String × j.Value)) (key : String)
      → distinct kvs ≡ true
      → j.member (j.object kvs) key ≡ find_key key kvs
  pub items_object :
      (kvs : List (String × j.Value))
      → (more : List (String × j.Value)) × (j.items (j.object kvs) ≡ some more)
  pub member_assign :
      (v w : j.Value) (kvs : List (String × j.Value)) (k key : String)
      → j.items v ≡ some kvs
      → j.member (j.assign v k w) key ≡ (if str_eq k key then some w else j.member v key)
  pub items_assign :
      (v w : j.Value) (kvs : List (String × j.Value)) (k : String)
      → j.items v ≡ some kvs
      → (more : List (String × j.Value)) × (j.items (j.assign v k w) ≡ some more)
  pub items_member :
      (v : j.Value) (kvs : List (String × j.Value))
      → j.items v ≡ some kvs
      → (distinct kvs ≡ true) × ((key : String) → find_key key kvs ≡ j.member v key)
  pub unsigned : (width n : ℕ) → n < 2 ^ width → j.to_unsigned width (j.of_unsigned n) ≡ some n
  pub int : (n : ℕ) → n < 2 ^ 32 → j.to_int (j.of_int n) ≡ some n
  pub bool : (b : Bool) → j.to_bool (j.of_bool b) ≡ some b
  pub text : (s : List ℕ) → j.to_text (j.of_text s) ≡ some s
  pub float : (x : ℕ) → IsNumber x → j.to_float (j.of_float x) ≡ some x
  pub weights :
      (w : List (String × ℕ))
      → distinct w ≡ true
      → ((key : String) (x : ℕ) → find_key key w ≡ some x → IsNumber x)
      → (back : List (String × ℕ)) × (j.to_weights (j.of_weights w) ≡ some back)
        × ((key : String) → find_key key back ≡ find_key key w)

-- `if (j.contains(key)) j.at(key).get_to(value);`.
unfoldable pub read :
    (j : Json) {A : Type 0} → (j.Value → Option A) → j.Value → String → A → Option A
read j get v key old = elim (j.member v key) [ none ↦ some old | some w ↦ get w ]

module _ (j : Json) {A : Type 0} (get : j.Value → Option A) where
  -- A member that is there is read.
  pub read-member :
      (v : j.Value) (key : String) (old a : A) (w : j.Value)
      → j.member v key ≡ some w
      → get w ≡ some a
      → read j get v key old ≡ some a
  unfolding read
  read-member v key old a w found given = ground (arith, found, given)

  pub read-object :
      (laws : IsJson j) (kvs : List (String × j.Value)) (key : String) (old a : A) (w : j.Value)
      → distinct kvs ≡ true
      → find_key key kvs ≡ some w
      → get w ≡ some a
      → read j get (j.object kvs) key old ≡ some a
  read-object laws kvs key old a w once found given =
      read-member (j.object kvs) key old a w (laws.member_object kvs key once ∙ found) given

-- Assignments to members, one after the other.
unfoldable pub assign_all : (j : Json) → j.Value → List (String × j.Value) → j.Value
assign_all j v [] = v
assign_all j v ((k, w) ∷ more) = assign_all j (j.assign v k w) more

pub find_key_of_missing {ℓ} :
    {V : Type ℓ} (key : String) (kvs : List (String × V))
    → has_key key kvs ≡ false
    → find_key key kvs ≡ none
find_key_of_missing key [] h = refl
find_key_of_missing key ((k, v) ∷ more) h = ground (arith, h, find_key_of_missing key more)

-- A member that is assigned, or one that was there.
abbrev pub assigned {ℓ} : {V : Type ℓ} → Option V → Option V → Option V
assigned none old = old
assigned (some w) old = some w

pub member-assign_all :
    (j : Json) (laws : IsJson j) (v : j.Value) (old kws : List (String × j.Value)) (key : String)
    → j.items v ≡ some old
    → distinct kws ≡ true
    → j.member (assign_all j v kws) key ≡ assigned (find_key key kws) (j.member v key)
unfolding assign_all
member-assign_all j laws v old [] key h once = refl
member-assign_all j laws v old ((k, w) ∷ more) key h once =
    let (next, is_object) = laws.items_assign v w old k h in
    let rest =
      member-assign_all j laws (j.assign v k w) next more key is_object (ground (arith, once)) in
    elim (Bool-cases (str_eq k key)) [
      | inl hit ↦
          let same : k ≡ key = (eq_iff k key).0 hit in
          let later : has_key key more ≡ false =
            subst (λ x. has_key x more ≡ false) same (ground (arith, once)) in
          ground (
            arith,
            hit,
            rest,
            find_key_of_missing key more later,
            laws.member_assign v w old k key h,
          )
      | inr miss ↦ ground (arith, miss, rest, laws.member_assign v w old k key h)
    ]

module _ (j : Json) {A : Type 0} (get : j.Value → Option A) where
  -- A member of an object, or one assigned to it later.
  pub read-assign_all :
      (laws : IsJson j) (kvs kws : List (String × j.Value)) (key : String) (old a : A) (w : j.Value)
      → distinct kvs ≡ true
      → distinct kws ≡ true
      → assigned (find_key key kws) (find_key key kvs) ≡ some w
      → get w ≡ some a
      → read j get (assign_all j (j.object kvs) kws) key old ≡ some a
  read-assign_all laws kvs kws key old a w once again found given =
      let (items, is_object) = laws.items_object kvs in
      read-member j get (assign_all j (j.object kvs) kws) key old a w
        (member-assign_all j laws (j.object kvs) items kws key is_object again
          ∙ ap (assigned (find_key key kws)) (laws.member_object kvs key once)
          ∙ found)
        given
