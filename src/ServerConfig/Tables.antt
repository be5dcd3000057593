-- ===== src/ServerConfig/Tables.antt =====
-- Maps that are written to an object and read back from it, for the game adapters of
-- src/server/config.h.
use Prim.Native.String.{String}
use text.Mathlib.Text.{◌==◌ as str_eq}
use text.Mathlib.TextEquality.{eq_iff}
use zero_latency_yolo.Base.{
  ◌≡◌, refl, ap, ◌∙◌, subst, Option-cases, Bool-cases, inl, inr, true, false, List, [], ◌∷◌, Option,
  none, some, arith,
}
use zero_latency_yolo.ServerConfig.Json.{
  Json, IsJson, assign_all, find_key, has_key, distinct, member-assign_all, find_key_of_missing,
}
use zero_latency_yolo.ServerConfig.Adapters.{entries, put_items, put, find_key-put}

-- The value that is written for an entry that there is.
abbrev pub written {ℓ ℓ'} : {V : Type ℓ} {W : Type ℓ'} → ((V → W)) → Option V → Option W
written write none = none
written write (some a) = some (write a)

-- What is read for an entry that there is, and otherwise what there was.
abbrev pub read_or {ℓ ℓ'} :
    {V : Type ℓ} {W : Type ℓ'} → ((W → Option V)) → Option W → Option V → Option V
read_or get none old = old
read_or get (some w) old = get w

module _ (j : Json) {V : Type 0} (write : V → j.Value) where
  pub find_key-entries :
      (key : String) (table : List (String × V))
      → find_key key (entries j write table) ≡ written write (find_key key table)
  unfolding entries
  find_key-entries key [] = refl
  find_key-entries key ((k, a) ∷ more) = ground (arith, find_key-entries key more)

  pub has_key-entries :
      (key : String) (table : List (String × V))
      → has_key key (entries j write table) ≡ has_key key table
  unfolding entries
  has_key-entries key [] = refl
  has_key-entries key ((k, a) ∷ more) = ground (arith, has_key-entries key more)

  pub distinct-entries :
      (table : List (String × V)) → distinct (entries j write table) ≡ distinct table
  unfolding entries
  distinct-entries [] = refl
  distinct-entries ((k, a) ∷ more) = ground (arith, has_key-entries k more, distinct-entries more)

items-assign_all :
    (j : Json) (laws : IsJson j) (v : j.Value) (old kws : List (String × j.Value))
    → j.items v ≡ some old
    → (kvs : List (String × j.Value)) × (j.items (assign_all j v kws) ≡ some kvs)
unfolding assign_all
items-assign_all j laws v old [] h = (old, h)
items-assign_all j laws v old ((k, w) ∷ more) h =
    let (next, is_object) = laws.items_assign v w old k h in
    items-assign_all j laws (j.assign v k w) next more is_object

-- The items of an object to which a map is written, where no key stands twice.
pub items-entries :
    (j : Json) (laws : IsJson j) {V : Type 0} (write : V → j.Value) (table : List (String × V))
    → distinct table ≡ true
    → (kvs : List (String × j.Value)) × (j.items
          (assign_all j (j.object []) (entries j write table))
        ≡ some kvs)
      × (distinct kvs ≡ true)
      × ((key : String) → find_key key kvs ≡ written write (find_key key table))
items-entries j laws write table once =
    let v = assign_all j (j.object []) (entries j write table) in
    let (empty, is_object) = laws.items_object [] in
    let (kvs, found) =
      items-assign_all j laws (j.object []) empty (entries j write table) is_object in
    let (single, members) = laws.items_member v kvs found in
    (
      kvs,
      found,
      single,
      (λ key.
          let all =
            member-assign_all j laws (j.object []) empty (entries j write table) key is_object
              (distinct-entries j write table ∙ once) in
          members key
          ∙ all
          ∙ (rw (laws.member_object [] key refl, find_key-entries j write key table)
              (elim (Option-cases (find_key key table)) [
                | inl missing ↦ rw (missing) refl
                | inr (a, given) ↦ rw (given) refl
              ]))),
    )

module _ (j : Json) {V : Type 0} (get : j.Value → Option V) where
  pub find_key-put_items_of :
      (kvs : List (String × j.Value)) (table found : List (String × V)) (wanted : String)
      → distinct kvs ≡ true
      → put_items j get kvs table ≡ some found
      → find_key wanted found ≡ read_or get (find_key wanted kvs) (find_key wanted table)
  unfolding put_items
  find_key-put_items_of [] table found wanted once e = ground (arith, e)
  find_key-put_items_of ((k, v) ∷ more) table found wanted once e = elim (Option-cases (get v)) [
    | inl fails ↦ let no : ⊥ = ground (arith, fails, e) in elim no [ ]
    | inr (a, given) ↦
        let rest =
          find_key-put_items_of more (put k a table) found wanted (ground (arith, once))
            (ground (arith, given, e)) in
        elim (Bool-cases (str_eq k wanted)) [
          | inl hit ↦
              let same : k ≡ wanted = (eq_iff k wanted).0 hit in
              let later : has_key wanted more ≡ false =
                subst (λ x. has_key x more ≡ false) same (ground (arith, once)) in
              ground (
                arith,
                hit,
                given,
                rest,
                find_key_of_missing wanted more later,
                find_key-put k wanted a table,
              )
          | inr miss ↦ ground (arith, miss, rest, find_key-put k wanted a table)
        ]
  ]

  pub put_items_total :
      (kvs : List (String × j.Value)) (table : List (String × V))
      → distinct kvs ≡ true
      → ((key : String) (w : j.Value) → find_key key kvs ≡ some w → (a : V) × (get w ≡ some a))
      → (found : List (String × V)) × (put_items j get kvs table ≡ some found)
  unfolding put_items
  put_items_total [] table once all = (table, refl)
  put_items_total ((k, v) ∷ more) table once all =
      let itself : str_eq k k ≡ true = (eq_iff k k).1 refl in
      let (a, given) = all k v (ground (arith, itself)) in
      let (found, rest) =
        put_items_total more (put k a table) (ground (arith, once)) (λ key w there.
          elim (Bool-cases (str_eq k key)) [
            | inl hit ↦
                let same : k ≡ key = (eq_iff k key).0 hit in
                let later : has_key key more ≡ false =
                  subst (λ x. has_key x more ≡ false) same (ground (arith, once)) in
                let no : ⊥ = ground (arith, there, find_key_of_missing key more later) in
                elim no [ ]
            | inr miss ↦ all key w (ground (arith, miss, there))
          ]) in
      (found, ground (arith, given, rest))

-- A map that is written to an object and read back over another: under each key stands what is read
-- from the value written there, or else what stood there before.
pub read-entries :
    (j : Json) (laws : IsJson j) {V : Type 0} (write : V → j.Value) (get : j.Value → Option V)
    (table old : List (String × V))
    → distinct table ≡ true
    → ((key : String) (a : V) → find_key key table ≡ some a → (b : V) × (get (write a) ≡ some b))
    → (kvs : List (String × j.Value)) × (j.items
          (assign_all j (j.object []) (entries j write table))
        ≡ some kvs)
      × (found : List (String × V)) × (put_items j get kvs old ≡ some found)
      × ((key : String)
          → find_key key found
            ≡ read_or get (written write (find_key key table)) (find_key key old))
read-entries j laws write get table old once all =
    let (kvs, items, single, lookups) = items-entries j laws write table once in
    let (found, read) = put_items_total j get kvs old single (λ key w there.
      elim (Option-cases (find_key key table)) [
        | inl missing ↦ let no : ⊥ = ground (arith, there, lookups key, missing) in elim no [ ]
        | inr (a, given) ↦
            let same : w ≡ write a = ground (arith, there, lookups key, given) in
            rw (same) (all key a given)
      ]) in
    (
      kvs,
      items,
      found,
      read,
      (λ key.
          find_key-put_items_of j get kvs old found key single read
          ∙ ap (λ x. read_or get x (find_key key old)) (lookups key)),
    )
