-- ===== src/Lru/Valid.antt =====
-- The invariant of the cache, and an element that moves to the back.
use valk.Prelude.{
  ℕ, ◌≤◌, ◌≡◌, Option, none, some, List, [], ◌∷◌, ◌++◌, arith, length, ◌==◌, if◌then◌else◌,
}
use valk.Prelude.Int.{pos}
use valk.Lru.{Entry, Cache, map_get, find, remove, id_of, key_of}
use valk.Lru.Entries.{
  Distinct, find-append, find-remove_ne, find-remove_self, find-remove-none, remove-Distinct,
  append_one-Distinct, find_by,
}

abbrev pub id_at : ℕ → List Entry → Option ℕ
id_at k es = elim (find key_of k es) [ none ↦ none | some e ↦ some e.id ]

-- The map holds exactly the keys of the elements, each with its element's address; no address and
-- no key occurs twice; addresses from `fresh` on are unused; the list is no longer than the size.
pub record IsValid (c : Cache) : Type 0 where
  pub agree : (k : ℕ) → map_get k c.keys ≡ id_at k c.entries
  pub ids : Distinct id_of c.entries
  pub names : Distinct key_of c.entries
  pub unused : (i : ℕ) → c.fresh ≤ i → find id_of i c.entries ≡ none
  pub bounded : (n : ℕ) → c.size ≡ pos n → length c.entries ≤ n

-- An element that is taken out and put back last, with a new value.
module _ (es : List Entry) (k v : ℕ) {e : Entry} (ids : Distinct id_of es)
    (names : Distinct key_of es) (here : find key_of k es ≡ some e) where
  abbrev pub touched : List Entry
  touched = remove key_of k es ++ record { id = e.id; key = k; value = v } ∷ []

  pub found : (find id_of e.id es ≡ some e) × (remove id_of e.id es ≡ remove key_of k es)
  found = find_by key_of id_of k es ids here

  pub touched-names : Distinct key_of touched
  touched-names =
      append_one-Distinct key_of _ _ (remove-Distinct key_of k es names)
        (find-remove_self key_of k es names)

  pub touched-ids : Distinct id_of touched
  touched-ids =
      append_one-Distinct id_of _ _ (rw (← found.1) (remove-Distinct id_of e.id es ids))
        (rw (← found.1) (find-remove_self id_of e.id es ids))

  pub find-touched :
      (j : ℕ)
      → find key_of j touched
        ≡ (if k == j then some (record { id = e.id; key = k; value = v }) else find key_of j es)
  find-touched j = ground (
    arith,
    find-append key_of j (remove key_of k es) (record { id = e.id; key = k; value = v }),
    find-remove_self key_of k es names,
    find-remove_ne key_of k j es,
  )

  pub unused-touched : (i : ℕ) → find id_of i es ≡ none → find id_of i touched ≡ none
  unused-touched i free = ground (
    arith,
    find-append id_of i (remove key_of k es) (record { id = e.id; key = k; value = v }),
    find-remove-none key_of id_of k i es,
    found.0,
  )

  pub find-touched_id : find id_of e.id touched ≡ some (record { id = e.id; key = k; value = v })
  find-touched_id = ground (
    arith,
    find-append id_of e.id (remove key_of k es) (record { id = e.id; key = k; value = v }),
    find-remove_self id_of e.id es ids,
    found.1,
  )
