-- ===== src/Lru/Refines.antt =====
-- The cache with its map and its addresses does what the abstract list does.
use mathlib.Core.List.{map-append}
use valk.Prelude.{
  ℕ, ◌≡◌, refl, ap, ◌∙◌, ◌≢◌, inl, inr, none, some, List, [], ◌∷◌, ◌++◌, true, arith, ok, length,
  Option-cases, Bool-cases, length-append, length-map,
}
use valk.Prelude.Int.{ℤ, pos, negsuc}
use valk.Lru.{
  Entry, Cache, map_get, find, remove, id_of, key_of, set_pair, move_to_back, new_lru, is_full, get,
  insert, put,
}
use valk.Lru.New
use valk.Lru.Entries.{find_field, length-remove, find-set_pair, remove-set_pair, move_to_back-found}
use valk.Lru.Abstract.{
  lookup, drop_key, after_get, get_result, after_put, pairs_of, lookup-pairs_of, drop_key-pairs_of,
}
use valk.Lru.Valid.{
  IsValid, found, touched-names, touched-ids, find-touched, unused-touched, find-touched_id,
}

-- `newLRU` builds a valid, empty cache.
pub new_lru-IsValid : (size : ℤ) → IsValid (new_lru size)
unfolding new_lru map_get find
new_lru-IsValid size = record {
  agree = λ k. refl;
  ids = tt;
  names = tt;
  unused = λ i h. refl;
  bounded = λ n h. omega arith;
}

-- A full list of a size other than 0 has a front element.
full-cons :
    (es : List Entry) (size : ℤ)
    → is_full (length es) size ≡ true
    → size ≢ pos 0
    → (e : Entry) × (rest : List Entry) × (es ≡ e ∷ rest)
unfolding is_full
full-cons (e ∷ es) size full sized = (e, es, refl)
full-cons [] (pos n) full sized = absurd (sized (ap pos (ground arith)))
full-cons [] (negsuc n) full sized = absurd (cc)

module _ (c : Cache) (k : ℕ) (valid : IsValid c) where
  -- The cache with the element of `k` moved to the back, with the value `v`.
  abbrev moved : ℕ → Entry → Cache
  moved v e = record c {
    entries = remove key_of k c.entries ++ record { id = e.id; key = k; value = v } ∷ [];
  }

  module _ (v : ℕ) {e : Entry} (here : find key_of k c.entries ≡ some e) where
    moved-IsValid : IsValid (moved v e)
    moved-IsValid = record {
      agree = λ j. ground (
        arith,
        valid.agree j,
        valid.agree k,
        find-touched c.entries k v valid.ids valid.names here j,
      );
      ids = touched-ids c.entries k v valid.ids valid.names here;
      names = touched-names c.entries k v valid.ids valid.names here;
      unused = λ i h. unused-touched c.entries k v valid.ids valid.names here i (valid.unused i h);
      bounded = λ n h. omega (
        arith,
        valid.bounded n h,
        length-remove key_of k c.entries here,
        length-append {0} (remove key_of k c.entries)
            (record { id = e.id; key = k; value = v } ∷ []),
      );
    }

    pairs_of-moved : pairs_of (moved v e).entries ≡ drop_key k (pairs_of c.entries) ++ (k, v) ∷ []
    pairs_of-moved = rw (drop_key-pairs_of) (map-append _ _ _)

  -- `Get` never panics on a valid cache. It returns what the abstract list holds, keeps the
  -- cache valid and moves the pair to the back as the list does.
  pub get-after_get :
      (c' : Cache) × (get c k ≡ ok (c', get_result k (pairs_of c.entries)))
      × IsValid c'
      × (pairs_of c'.entries ≡ after_get k (pairs_of c.entries))
      × (c'.size ≡ c.size)
  unfolding get after_get
  get-after_get = elim (Option-cases (find key_of k c.entries)) [
    | inl miss ↦
        let looked : lookup k (pairs_of c.entries) ≡ none =
          ground (arith, lookup-pairs_of k c.entries) in
        (c, ground (arith, valid.agree k), valid, ground arith, refl)
    | inr (e, here) ↦
        let looked : lookup k (pairs_of c.entries) ≡ some e.value =
          ground (arith, lookup-pairs_of k c.entries) in
        let (by_id, same) = found c.entries k e.value valid.ids valid.names here in
        let e' : Entry = record { id = e.id; key = k; value = e.value } in
        let whole : e ≡ e' = ground (arith, find_field key_of k c.entries here) in
        let back : move_to_back e.id c.entries ≡ remove key_of k c.entries ++ e' ∷ [] =
          ground (arith, move_to_back-found e.id c.entries by_id, whole, same) in
        let again : find id_of e.id (remove key_of k c.entries ++ e' ∷ []) ≡ some e' =
          find-touched_id c.entries k e.value valid.ids valid.names here in
        (
          moved e.value e,
          ground (arith, valid.agree k, back, again, looked),
          moved-IsValid e.value here,
          ground (arith, pairs_of-moved e.value here),
          refl,
        )
  ]

  size-insert : (v : ℕ) → (insert c k v).size ≡ c.size
  unfolding insert
  size-insert v = refl

  -- A key that is not in the cache: inserted, or put in the place of the front pair.
  put_new :
      (v : ℕ)
      → c.size ≢ pos 0
      → find key_of k c.entries ≡ none
      → (c' : Cache) × (put c k v ≡ ok c')
        × IsValid c'
        × (pairs_of c'.entries ≡ after_put c.size k v (pairs_of c.entries))
        × (c'.size ≡ c.size)
  unfolding put after_put
  put_new v sized miss =
      let looked : lookup k (pairs_of c.entries) ≡ none =
        ground (arith, lookup-pairs_of k c.entries) in
      let absent : map_get k c.keys ≡ none = ground (arith, valid.agree k) in
      let same : length (pairs_of c.entries) ≡ length c.entries = length-map c.entries _ in
      elim (Bool-cases (is_full (length c.entries) c.size)) [
        | inl full ↦
            let (e, es, split) = full-cons c.entries c.size full sized in
            (
              New.evicted c k v valid miss e es split,
              ground (arith, New.evict-evicted c k v valid miss e es split),
              New.evicted-IsValid c k v valid miss e es split,
              ground (arith, New.pairs_of-evicted c k v valid miss e es split),
              refl,
            )
        | inr room ↦ (
          insert c k v,
          ground arith,
          New.insert-IsValid c k v valid miss room,
          ground (arith, New.pairs_of-insert c k v valid miss),
          size-insert v,
        )
      ]

  -- On a valid cache of a size other than 0 `Put` does not panic. It keeps the cache valid, and
  -- writes and evicts as the abstract list does.
  pub put-after_put :
      (v : ℕ)
      → c.size ≢ pos 0
      → (c' : Cache) × (put c k v ≡ ok c')
        × IsValid c'
        × (pairs_of c'.entries ≡ after_put c.size k v (pairs_of c.entries))
        × (c'.size ≡ c.size)
  unfolding put after_put
  put-after_put v sized = elim (Option-cases (find key_of k c.entries)) [
    | inr (e, here) ↦
        let looked : lookup k (pairs_of c.entries) ≡ some e.value =
          ground (arith, lookup-pairs_of k c.entries) in
        let (by_id, same) = found c.entries k v valid.ids valid.names here in
        let e' : Entry = record { id = e.id; key = k; value = v } in
        let back : move_to_back e.id (set_pair e.id k v c.entries)
            ≡ remove key_of k c.entries ++ e' ∷ [] =
          move_to_back-found e.id (set_pair e.id k v c.entries)
            (find-set_pair e.id k v c.entries by_id)
          ∙ ap (λ (es : List Entry). es ++ e' ∷ []) (remove-set_pair e.id k v c.entries ∙ same) in
        (
          moved v e,
          ground (arith, valid.agree k, back),
          moved-IsValid v here,
          ground (arith, pairs_of-moved v here),
          refl,
        )
    | inl miss ↦ put_new v sized miss
  ]
