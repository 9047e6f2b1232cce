-- ===== src/Lru.antt =====
-- The cache of examples/bench/lru/main.go. `container/list` is a list of elements, front first: each has
-- an identity, the address of a `*list.Element`, and the `Pair` behind its `Value`. An element is never
-- taken off its list, so the pairs live in it. The map is an association list from a key to an
-- element's identity. `fresh` is the next address.
pub mod Entries
pub mod Abstract
pub mod Reads
pub mod Refines
pub mod Valid
pub mod Main
pub mod New
use valk.Prelude.{
  ℕ, suc, ◌+◌, Option, none, some, List, [], ◌∷◌, ◌++◌, Bool, true, false, Result, ok, panic, ◌>>=◌,
  length, ◌==◌, if◌then◌else◌,
}
use valk.Prelude.Int.{ℤ, pos, negsuc}

pub record Entry : Type 0 where
  pub id : ℕ
  pub key : ℕ
  pub value : ℕ

pub record Cache : Type 0 where
  pub size : ℤ
  pub keys : List (ℕ × ℕ)
  pub entries : List Entry
  pub fresh : ℕ

-- The Go map: `m[k]`, `m[k] = v` and `delete(m, k)`.
unfoldable pub map_get : ℕ → List (ℕ × ℕ) → Option ℕ
map_get k [] = none
map_get k ((j, v) ∷ m) = if j == k then some v else map_get k m

unfoldable pub map_set : ℕ → ℕ → List (ℕ × ℕ) → List (ℕ × ℕ)
map_set k v [] = (k, v) ∷ []
map_set k v ((j, w) ∷ m) = if j == k then (k, v) ∷ m else (j, w) ∷ map_set k v m

unfoldable pub map_delete : ℕ → List (ℕ × ℕ) → List (ℕ × ℕ)
map_delete k [] = []
map_delete k ((j, w) ∷ m) = if j == k then map_delete k m else (j, w) ∷ map_delete k m

-- The first element with a given identity or key, and the list without it.
unfoldable pub find : (Entry → ℕ) → ℕ → List Entry → Option Entry
find field x [] = none
find field x (e ∷ es) = if field e == x then some e else find field x es

unfoldable pub remove : (Entry → ℕ) → ℕ → List Entry → List Entry
remove field x [] = []
remove field x (e ∷ es) = if field e == x then es else e ∷ remove field x es

abbrev pub id_of : Entry → ℕ
id_of e = e.id

abbrev pub key_of : Entry → ℕ
key_of e = e.key

-- `ele.Value.(*Pair).Key = key; ele.Value.(*Pair).Value = value` through an element's address.
unfoldable pub set_pair : ℕ → ℕ → ℕ → List Entry → List Entry
set_pair id key value [] = []
set_pair id key value (e ∷ es) =
    if e.id == id
    then record { id = e.id; key = key; value = value } ∷ es
    else e ∷ set_pair id key value es

-- `l.MoveToBack(ele)`; an element that is not of the list stays where it is.
unfoldable pub move_to_back : ℕ → List Entry → List Entry
unfolding find remove
move_to_back id es = elim (find id_of id es) [ none ↦ es | some e ↦ remove id_of id es ++ e ∷ [] ]

-- `newLRU`
unfoldable pub new_lru : ℤ → Cache
new_lru size = record { size = size; keys = []; entries = []; fresh = 0 }

-- `c.entries.Len() == c.Size`
unfoldable pub is_full : ℕ → ℤ → Bool
is_full len (pos n) = len == n
is_full len (negsuc n) = false

-- The cache after `Get`, and what it returns: the value and true, or 0 and false. The read of an
-- element that is in the map and not in the list would be a dangling pointer; `panic` stands for it.
unfoldable pub get : Cache → ℕ → Result (Cache × (ℕ × Bool))
unfolding map_get move_to_back
get c key = elim (map_get key c.keys) [
  | none ↦ ok (c, (0, false))
  | some id ↦
      let entries = move_to_back id c.entries in
      elim (find id_of id entries) [
        | none ↦ panic
        | some e ↦ ok (record c { entries = entries }, (e.value, true))
      ]
]

-- The three branches of `Put`: an update, an eviction and an insertion.
unfoldable pub update : Cache → ℕ → ℕ → ℕ → Cache
unfolding set_pair move_to_back
update c id key value = record c { entries = move_to_back id (set_pair id key value c.entries) }

-- The front element is used again for the new pair; with no element `ele.Value` is a nil pointer.
unfoldable pub evict : Cache → ℕ → ℕ → Result Cache
unfolding map_set map_delete set_pair move_to_back
evict c key value = elim c.entries [
  | [] ↦ panic
  | e ∷ es ↦ ok (record c {
    keys = map_set key e.id (map_delete e.key c.keys);
    entries = set_pair e.id key value (move_to_back e.id c.entries);
  })
]

unfoldable pub insert : Cache → ℕ → ℕ → Cache
unfolding map_set
insert c key value = record c {
  keys = map_set key c.fresh c.keys;
  entries = c.entries ++ record { id = c.fresh; key = key; value = value } ∷ [];
  fresh = c.fresh + 1;
}

unfoldable pub put : Cache → ℕ → ℕ → Result Cache
unfolding map_get is_full update evict insert
put c key value = elim (map_get key c.keys) [
  | some id ↦ ok (update c id key value)
  | none ↦ if is_full (length c.entries) c.size then evict c key value else ok (insert c key value)
]
