-- ===== src/Lru/Abstract.antt =====
-- What the cache promises: a list of pairs, the least recently used first, with no map and no
-- addresses.
use valk.Prelude.{
  ℕ, ◌≡◌, refl, Option, none, some, List, [], ◌∷◌, ◌++◌, map, Bool, true, false, arith, length,
  ◌==◌, if◌then◌else◌,
}
use valk.Prelude.Int.{ℤ}
use valk.Lru.{Entry, find, remove, key_of, is_full}

abbrev pub Pairs : Type 0
Pairs = List (ℕ × ℕ)

unfoldable pub lookup : ℕ → Pairs → Option ℕ
lookup k [] = none
lookup k ((j, v) ∷ l) = if j == k then some v else lookup k l

unfoldable pub drop_key : ℕ → Pairs → Pairs
drop_key k [] = []
drop_key k ((j, v) ∷ l) = if j == k then l else (j, v) ∷ drop_key k l

unfoldable pub drop_first : Pairs → Pairs
drop_first [] = []
drop_first (p ∷ l) = l

-- A pair that is read moves to the back.
unfoldable pub after_get : ℕ → Pairs → Pairs
unfolding lookup drop_key
after_get k l = elim (lookup k l) [ none ↦ l | some v ↦ drop_key k l ++ (k, v) ∷ [] ]

abbrev pub get_result : ℕ → Pairs → ℕ × Bool
get_result k l = elim (lookup k l) [ none ↦ (0, false) | some v ↦ (v, true) ]

-- A pair that is written moves to the back, and if it is new and the cache is full, the front pair
-- goes.
unfoldable pub after_put : ℤ → ℕ → ℕ → Pairs → Pairs
unfolding lookup drop_key drop_first
after_put size k v l = elim (lookup k l) [
  | some old ↦ drop_key k l ++ (k, v) ∷ []
  | none ↦ (if is_full (length l) size then drop_first l else l) ++ (k, v) ∷ []
]

-- The pairs of the elements, in their order.
abbrev pub pairs_of : List Entry → Pairs
pairs_of = map (λ e. (e.key, e.value))

pub lookup-pairs_of :
    (k : ℕ) (es : List Entry)
    → lookup k (pairs_of es) ≡ elim (find key_of k es) [ none ↦ none | some e ↦ some e.value ]
unfolding lookup find
lookup-pairs_of k [] = refl
lookup-pairs_of k (e ∷ es) = ground (arith, lookup-pairs_of k es)

pub drop_key-pairs_of :
    (k : ℕ) (es : List Entry) → drop_key k (pairs_of es) ≡ pairs_of (remove key_of k es)
unfolding drop_key remove
drop_key-pairs_of k [] = refl
drop_key-pairs_of k (e ∷ es) = ground (arith, drop_key-pairs_of k es)
