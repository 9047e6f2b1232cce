-- ===== src/Lru/Entries.antt =====
-- Lists of elements searched by one of their fields, and the map.
use valk.Prelude.{
  ℕ, ◌+◌, ◌≡◌, refl, ◌≢◌, none, some, List, [], ◌∷◌, ◌++◌, arith, length, ◌==◌, if◌then◌else◌,
}
use valk.Lru.{Entry, map_get, map_set, map_delete, find, remove, id_of, set_pair, move_to_back}

pub map_get-set :
    (j k v : ℕ) (m : List (ℕ × ℕ))
    → map_get j (map_set k v m) ≡ (if k == j then some v else map_get j m)
unfolding map_get map_set
map_get-set j k v [] = refl
map_get-set j k v ((i, w) ∷ m) = ground (arith, map_get-set j k v m)

pub map_get-delete :
    (j k : ℕ) (m : List (ℕ × ℕ))
    → map_get j (map_delete k m) ≡ (if k == j then none else map_get j m)
unfolding map_get map_delete
map_get-delete j k [] = ground arith
map_get-delete j k ((i, w) ∷ m) = ground (arith, map_get-delete j k m)

pub find-remove-none :
    (field other : Entry → ℕ) (x y : ℕ) (es : List Entry)
    → find other y es ≡ none
    → find other y (remove field x es) ≡ none
unfolding find remove
find-remove-none field other x y [] h = refl
find-remove-none field other x y (d ∷ es) h = ground (arith, find-remove-none field other x y es)

module _ (field : Entry → ℕ) where
  -- No two elements agree in the field.
  abbrev pub Distinct : List Entry → Type 0
  Distinct [] = Unit
  Distinct (e ∷ es) = (find field (field e) es ≡ none) × Distinct es

  pub find-append :
      (x : ℕ) (es : List Entry) (e : Entry)
      → find field x (es ++ e ∷ [])
        ≡ elim (find field x es) [ none ↦ if field e == x then some e else none | some d ↦ some d ]
  unfolding find
  find-append x [] e = refl
  find-append x (d ∷ es) e = ground (arith, find-append x es e)

  pub find_field : (x : ℕ) (es : List Entry) {e : Entry} → find field x es ≡ some e → field e ≡ x
  unfolding find
  find_field x [] h = cc
  find_field x (d ∷ es) {e} h = ground (arith, find_field x es {e = e})

  pub find-remove_ne :
      (x y : ℕ) (es : List Entry) → x ≢ y → find field y (remove field x es) ≡ find field y es
  unfolding find remove
  find-remove_ne x y [] h = refl
  find-remove_ne x y (d ∷ es) h = ground (arith, find-remove_ne x y es)

  pub find-remove_self :
      (x : ℕ) (es : List Entry) → Distinct es → find field x (remove field x es) ≡ none
  unfolding find remove
  find-remove_self x [] h = refl
  find-remove_self x (d ∷ es) h = ground (arith, find-remove_self x es)

  pub remove-Distinct : (x : ℕ) (es : List Entry) → Distinct es → Distinct (remove field x es)
  unfolding remove
  remove-Distinct x [] h = tt
  remove-Distinct x (d ∷ es) h =
      ground (arith, remove-Distinct x es, find-remove-none field field x (field d) es)

  pub append_one-Distinct :
      (es : List Entry) (e : Entry)
      → Distinct es
      → find field (field e) es ≡ none
      → Distinct (es ++ e ∷ [])
  unfolding find
  append_one-Distinct [] e h free = ground arith
  append_one-Distinct (d ∷ es) e h free =
      ground (arith, append_one-Distinct es e, find-append (field d) es e)

  pub length-remove :
      (x : ℕ) (es : List Entry) {e : Entry}
      → find field x es ≡ some e
      → length (remove field x es) + 1 ≡ length es
  unfolding find remove
  length-remove x [] h = cc
  length-remove x (d ∷ es) {e} h = ground (arith, length-remove x es {e = e})

-- Where both fields tell the elements apart, one element is found and removed by either.
pub find_by :
    (p q : Entry → ℕ) (x : ℕ) (es : List Entry) {e : Entry}
    → Distinct q es
    → find p x es ≡ some e
    → (find q (q e) es ≡ some e) × (remove q (q e) es ≡ remove p x es)
unfolding find remove
find_by p q x [] h f = cc
find_by p q x (d ∷ es) {e} h f = ground (arith, find_by p q x es {e = e} h.1)

-- Writing a pair through its element's address.
pub find-set_pair :
    (i k v : ℕ) (es : List Entry) {e : Entry}
    → find id_of i es ≡ some e
    → find id_of i (set_pair i k v es) ≡ some (record { id = i; key = k; value = v })
unfolding find set_pair
find-set_pair i k v [] h = cc
find-set_pair i k v (d ∷ es) {e} h = ground (arith, find-set_pair i k v es {e = e})

pub remove-set_pair :
    (i k v : ℕ) (es : List Entry) → remove id_of i (set_pair i k v es) ≡ remove id_of i es
unfolding remove set_pair
remove-set_pair i k v [] = refl
remove-set_pair i k v (d ∷ es) = ground (arith, remove-set_pair i k v es)

pub set_pair-append_one :
    (i k v : ℕ) (es : List Entry) (e : Entry)
    → find id_of i es ≡ none
    → e.id ≡ i
    → set_pair i k v (es ++ e ∷ []) ≡ es ++ record { id = i; key = k; value = v } ∷ []
unfolding find set_pair
set_pair-append_one i k v [] e h same = ground arith
set_pair-append_one i k v (d ∷ es) e h same = ground (arith, set_pair-append_one i k v es e)

-- `MoveToBack` of an element of the list.
pub move_to_back-found :
    (i : ℕ) (es : List Entry) {e : Entry}
    → find id_of i es ≡ some e
    → move_to_back i es ≡ remove id_of i es ++ e ∷ []
unfolding move_to_back
move_to_back-found i es h = rw (h, move_to_back)
