-- ===== src/ServerConfig/Examples/Values.antt =====
-- A small library of JSON values, as src/server/config.h uses one.
use Prim.Native.String.{String}
use text.Mathlib.Text.{◌==◌ as str_eq}
use text.Mathlib.TextEquality.{eq_iff}
use zero_latency_yolo.Base.{
  ℕ, ◌≡◌, refl, Bool, true, false, List, [], ◌∷◌, Option, none, some, arith, ap, subst,
  if◌then◌else◌, Bool-cases, inl, inr,
}
use zero_latency_yolo.ClientConfig.{bytes}
use zero_latency_yolo.ServerConfig.Json.{Json, IsJson, find_key, has_key, distinct}

-- Values, and the members of an object.
mutual
  pub data Value : Type 0 where
    object : Members → Value
    number : ℕ → Value
    flag : Bool → Value
    chars : List ℕ → Value
    weights : List (String × ℕ) → Value

  pub data Members : Type 0 where
    nil : Members
    member : String → Value → Members → Members

pub members_of : List (String × Value) → Members
members_of [] = nil
members_of ((k, v) ∷ more) = member k v (members_of more)

entries_of : Members → List (String × Value)
entries_of nil = []
entries_of (member k v more) = (k, v) ∷ entries_of more

entries_of-members_of : (kvs : List (String × Value)) → entries_of (members_of kvs) ≡ kvs
unfolding entries_of members_of
entries_of-members_of [] = refl
entries_of-members_of ((k, v) ∷ more) = ap (λ rest. (k, v) ∷ rest) (entries_of-members_of more)

-- The first entry under each key.
without : String → List (String × Value) → List (String × Value)
without key [] = []
without key ((k, v) ∷ more) = if str_eq k key then without key more else (k, v) ∷ without key more

firsts : List (String × Value) → List (String × Value)
firsts [] = []
firsts ((k, v) ∷ more) = (k, v) ∷ without k (firsts more)

has_key-without_itself :
    (key : String) (kvs : List (String × Value)) → has_key key (without key kvs) ≡ false
unfolding without
has_key-without_itself key [] = refl
has_key-without_itself key ((k, v) ∷ more) = ground (arith, has_key-without_itself key more)

has_key-without :
    (key other : String) (kvs : List (String × Value))
    → has_key other kvs ≡ false
    → has_key other (without key kvs) ≡ false
unfolding without
has_key-without key other [] h = refl
has_key-without key other ((k, v) ∷ more) h = ground (arith, h, has_key-without key other more)

distinct-without :
    (key : String) (kvs : List (String × Value))
    → distinct kvs ≡ true
    → distinct (without key kvs) ≡ true
unfolding without
distinct-without key [] h = refl
distinct-without key ((k, v) ∷ more) h =
    ground (arith, h, distinct-without key more, has_key-without key k more)

distinct-firsts : (kvs : List (String × Value)) → distinct (firsts kvs) ≡ true
unfolding firsts
distinct-firsts [] = refl
distinct-firsts ((k, v) ∷ more) = ground (
  arith,
  has_key-without_itself k (firsts more),
  distinct-without k (firsts more) (distinct-firsts more),
)

find_key-without :
    (key wanted : String) (kvs : List (String × Value))
    → str_eq key wanted ≡ false
    → find_key wanted (without key kvs) ≡ find_key wanted kvs
unfolding without
find_key-without key wanted [] h = refl
find_key-without key wanted ((k, v) ∷ more) h =
    ground (
      arith,
      h,
      eq_iff k key,
      eq_iff key wanted,
      eq_iff k wanted,
      find_key-without key wanted more h,
    )

find_key-firsts :
    (wanted : String) (kvs : List (String × Value))
    → find_key wanted (firsts kvs) ≡ find_key wanted kvs
unfolding firsts
find_key-firsts wanted [] = refl
find_key-firsts wanted ((k, v) ∷ more) = elim (Bool-cases (str_eq k wanted)) [
  | inl hit ↦ ground (arith, hit)
  | inr miss ↦
      ground
        (arith, miss, find_key-firsts wanted more, find_key-without k wanted (firsts more) miss)
]

pub items_of : Value → Option (List (String × Value))
items_of (object ms) = some (firsts (entries_of ms))
items_of (number n) = none
items_of (flag b) = none
items_of (chars s) = none
items_of (weights w) = none

pub member_of : Value → String → Option Value
member_of (object ms) key = find_key key (entries_of ms)
member_of (number n) key = none
member_of (flag b) key = none
member_of (chars s) key = none
member_of (weights w) key = none

-- What is assigned last is found first.
pub assign_to : Value → String → Value → Value
assign_to (object ms) key v = object (member key v ms)
assign_to (number n) key v = number n
assign_to (flag b) key v = flag b
assign_to (chars s) key v = chars s
assign_to (weights w) key v = weights w

pub number_of : Value → Option ℕ
number_of (object ms) = none
number_of (number n) = some n
number_of (flag b) = none
number_of (chars s) = none
number_of (weights w) = none

pub flag_of : Value → Option Bool
flag_of (object ms) = none
flag_of (number n) = none
flag_of (flag b) = some b
flag_of (chars s) = none
flag_of (weights w) = none

pub text_of : Value → Option (List ℕ)
text_of (object ms) = none
text_of (number n) = none
text_of (flag b) = none
text_of (chars s) = some s
text_of (weights w) = none

pub weights_of : Value → Option (List (String × ℕ))
weights_of (object ms) = none
weights_of (number n) = none
weights_of (flag b) = none
weights_of (chars s) = none
weights_of (weights w) = some w

-- A library that prints one text, and reads it as a given value.
abbrev pub small : Value → Json
small v = record {
  Value = Value;
  object = λ kvs. object (members_of kvs);
  member = member_of;
  items = items_of;
  assign = assign_to;
  of_unsigned = number;
  to_unsigned = λ width. number_of;
  of_int = number;
  to_int = number_of;
  of_bool = flag;
  to_bool = flag_of;
  of_text = chars;
  to_text = text_of;
  of_float = number;
  to_float = number_of;
  of_weights = weights;
  to_weights = weights_of;
  dump = λ w. (bytes "{}", true);
  parse = λ s. some v;
  extract = λ s. some v;
}

member_of-assign_to :
    (v w : Value) (kvs : List (String × Value)) (k key : String)
    → items_of v ≡ some kvs
    → member_of (assign_to v k w) key ≡ (if str_eq k key then some w else member_of v key)
unfolding items_of member_of assign_to entries_of
member_of-assign_to (object ms) w kvs k key h = refl
member_of-assign_to (number n) w kvs k key h = ground (arith, h)
member_of-assign_to (flag b) w kvs k key h = ground (arith, h)
member_of-assign_to (chars s) w kvs k key h = ground (arith, h)
member_of-assign_to (weights u) w kvs k key h = ground (arith, h)

items_of-assign_to :
    (v w : Value) (kvs : List (String × Value)) (k : String)
    → items_of v ≡ some kvs
    → (more : List (String × Value)) × (items_of (assign_to v k w) ≡ some more)
unfolding items_of assign_to
items_of-assign_to (object ms) w kvs k h = (firsts (entries_of (member k w ms)), refl)
items_of-assign_to (number n) w kvs k h = (kvs, h)
items_of-assign_to (flag b) w kvs k h = (kvs, h)
items_of-assign_to (chars s) w kvs k h = (kvs, h)
items_of-assign_to (weights u) w kvs k h = (kvs, h)

distinct-items_of :
    (v : Value) (kvs : List (String × Value))
    → items_of v ≡ some kvs
    → (distinct kvs ≡ true) × ((key : String) → find_key key kvs ≡ member_of v key)
unfolding items_of member_of
distinct-items_of (object ms) kvs h =
    let same : firsts (entries_of ms) ≡ kvs = ground (arith, h) in
    subst
      (λ x. (distinct x ≡ true) × ((key : String) → find_key key x ≡ find_key key (entries_of ms)))
      same (distinct-firsts (entries_of ms), (λ key. find_key-firsts key (entries_of ms)))
distinct-items_of (number n) kvs h = let no : ⊥ = ground (arith, h) in elim no [ ]
distinct-items_of (flag b) kvs h = let no : ⊥ = ground (arith, h) in elim no [ ]
distinct-items_of (chars s) kvs h = let no : ⊥ = ground (arith, h) in elim no [ ]
distinct-items_of (weights w) kvs h = let no : ⊥ = ground (arith, h) in elim no [ ]

pub small-IsJson : (v : Value) → IsJson (small v)
unfolding items_of member_of number_of flag_of text_of weights_of
small-IsJson v = record {
  member_object = λ kvs key once. ap (find_key key) (entries_of-members_of kvs);
  items_object = λ kvs. (firsts (entries_of (members_of kvs)), refl);
  member_assign = member_of-assign_to;
  items_assign = items_of-assign_to;
  items_member = distinct-items_of;
  unsigned = λ width n fits. refl;
  int = λ n fits. refl;
  bool = λ b. refl;
  text = λ s. refl;
  float = λ x fits. refl;
  weights = λ w once numbers. (w, refl, (λ key. refl));
}
