-- ===== src/Lru/New.antt =====
-- The two branches of `Put` for a key that is not in the cache: an insertion, and an eviction.
use mathlib.Core.List.{map-append}
use valk.Prelude.{
  ℕ, ◌≡◌, refl, ap, ◌∙◌, none, List, [], ◌∷◌, ◌++◌, false, arith, ok, length, length-append,
}
use valk.Lru.{
  Entry, Cache, map_set, map_delete, find, remove, id_of, key_of, move_to_back, is_full, evict,
  insert,
}
use valk.Lru.Entries.{
  map_get-set, map_get-delete, Distinct, find-append, append_one-Distinct, set_pair-append_one,
  move_to_back-found,
}
use valk.Lru.Abstract.{pairs_of, drop_first}
use valk.Lru.Valid.{IsValid}

module _ (c : Cache) (k v : ℕ) (valid : IsValid c) (miss : find key_of k c.entries ≡ none) where
  pub insert-IsValid : is_full (length c.entries) c.size ≡ false → IsValid (insert c k v)
  unfolding insert is_full
  insert-IsValid room =
      let new : Entry = record { id = c.fresh; key = k; value = v } in
      record {
        agree = λ j. ground (
          arith,
          map_get-set j k c.fresh c.keys,
          find-append key_of j c.entries new,
          valid.agree j,
        );
        ids =
            append_one-Distinct id_of c.entries new valid.ids (valid.unused c.fresh (omega arith));
        names = append_one-Distinct key_of c.entries new valid.names miss;
        unused = λ i h. ground (arith, find-append id_of i c.entries new, valid.unused i);
        bounded = λ n h. ground (arith, valid.bounded n h, length-append {0} c.entries (new ∷ []));
      }

  pub pairs_of-insert : pairs_of (insert c k v).entries ≡ pairs_of c.entries ++ (k, v) ∷ []
  unfolding insert
  pairs_of-insert = map-append _ _ _

  -- With the front element known.
  module _ (e : Entry) (es : List Entry) (split : c.entries ≡ e ∷ es) where
    abbrev pub evicted : Cache
    evicted = record c {
      keys = map_set k e.id (map_delete e.key c.keys);
      entries = es ++ record { id = e.id; key = k; value = v } ∷ [];
    }

    front-ids : Distinct id_of (e ∷ es)
    front-ids = rw split at valid.ids

    front-names : Distinct key_of (e ∷ es)
    front-names = rw split at valid.names

    pub evict-evicted : evict c k v ≡ ok evicted
    unfolding evict find remove
    evict-evicted =
        let back : move_to_back e.id (e ∷ es) ≡ es ++ e ∷ [] =
          move_to_back-found e.id (e ∷ es) {e = e} (ground arith)
          ∙ ap (λ (ds : List Entry). ds ++ e ∷ []) (ground arith) in
        let written = set_pair-append_one e.id k v es e front-ids.0 refl in
        rw (split, evict, split, back, written)

    pub evicted-IsValid : IsValid evicted
    unfolding find
    evicted-IsValid =
        let new : Entry = record { id = e.id; key = k; value = v } in
        record {
          agree = λ j. ground (
            arith,
            map_get-set j k e.id (map_delete e.key c.keys),
            map_get-delete j e.key c.keys,
            find-append key_of j es new,
            valid.agree j,
            front-names.0,
          );
          ids = append_one-Distinct id_of es new front-ids.1 front-ids.0;
          names = append_one-Distinct key_of es new front-names.1 (ground arith);
          unused = λ i h. ground (arith, find-append id_of i es new, valid.unused i h);
          bounded = λ n h.
              omega (arith, valid.bounded n h, length-append {0} es (new ∷ []), ap length split);
        }

    pub pairs_of-evicted : pairs_of evicted.entries ≡ drop_first (pairs_of c.entries) ++ (k, v) ∷ []
    unfolding drop_first
    pairs_of-evicted = rw split (map-append _ _ _)
