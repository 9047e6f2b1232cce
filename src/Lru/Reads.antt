-- ===== src/Lru/Reads.antt =====
-- What a read after a write returns.
use valk.Prelude.{
  ℕ, ◌≤◌, ◌≡◌, refl, ◌∙◌, ◌≢◌, some, List, [], ◌∷◌, ◌++◌, true, arith, ok, if◌then◌else◌, length,
  Option-cases, inl, inr, panic,
}
use valk.Prelude.Int.{ℤ, pos}
use valk.Lru.{Entry, Cache, find, key_of, get, put, is_full, evict}
use valk.Lru.Entries.{Distinct}
use valk.Lru.Abstract.{Pairs, lookup, after_put, drop_key, drop_first, pairs_of, lookup-pairs_of}
use valk.Lru.Refines.{get-after_get, put-after_put}
use valk.Lru.Valid.{IsValid}

-- The last pair is found, since its key stands nowhere else.
lookup_last :
    (k v : ℕ) (es : List Entry) (front : Pairs)
    → Distinct key_of es
    → pairs_of es ≡ front ++ (k, v) ∷ []
    → lookup k (pairs_of es) ≡ some v
unfolding lookup find
lookup_last k v [] [] h e = cc
lookup_last k v [] (p ∷ front) h e = cc
lookup_last k v (d ∷ es) [] h e = ground arith
lookup_last k v (d ∷ es) (p ∷ front) h e =
    ground (arith, lookup_last k v es front h.1, lookup-pairs_of k es)

-- `Put` writes its pair last.
after_put_last :
    (size : ℤ) (k v : ℕ) (l : Pairs)
    → (front : Pairs) × (after_put size k v l ≡ front ++ (k, v) ∷ [])
unfolding after_put
after_put_last size k v l = elim (Option-cases (lookup k l)) [
  | inl miss ↦ (if is_full (length l) size then drop_first l else l, ground arith)
  | inr (old, hit) ↦ (drop_key k l, ground arith)
]

-- On a valid cache of a size other than 0, a read right after a write returns the value written,
-- and neither panics.
pub get-put :
    (c : Cache) (k v : ℕ)
    → IsValid c
    → c.size ≢ pos 0
    → (c' : Cache) × (c'' : Cache) × (put c k v ≡ ok c') × (get c' k ≡ ok (c'', (v, true)))
get-put c k v valid sized =
    let (c', wrote, valid', pairs', size') = put-after_put c k valid v sized in
    let (c'', read, valid'', pairs'', size'') = get-after_get c' k valid' in
    let (front, last) = after_put_last c.size k v (pairs_of c.entries) in
    let looked = lookup_last k v c'.entries front valid'.names (pairs' ∙ last) in
    (c', c'', wrote, ground arith)

no_elements : (es : List Entry) → length es ≤ 0 → es ≡ []
no_elements [] h = refl
no_elements (e ∷ es) h = absurd (omega arith)

-- A cache of size 0 is empty, and its first `Put` panics: it takes the front of an empty list.
pub put_panics : (c : Cache) (k v : ℕ) → IsValid c → c.size ≡ pos 0 → put c k v ≡ panic
unfolding put evict is_full find
put_panics c k v valid none_fit =
    let empty : c.entries ≡ [] = no_elements c.entries (valid.bounded 0 none_fit) in
    ground (arith, valid.agree k)
