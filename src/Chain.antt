-- ===== src/Chain.antt =====
-- Linked nodes on a heap: `Node`, `chain` and `lenChain` of examples/bench/gc/main.go and
-- examples/bench/gc-multi/main.go, and `createObjects`, `gen` and `verify` of
-- examples/bench/gc-overhead/main.go and examples/bench/objects/main.go. A pointer is an address, or
-- `none` for nil. Allocation takes the next address: what the collector frees is never reached
-- again, so it is not modelled. Only the nodes of gc-multi have a payload; in the others it is 0.
pub mod Segments
pub mod Build
pub mod Walk
pub mod Rotate
use valk.Prelude.{
  ℕ, zero, suc, ◌+◌, ◌-◌, Option, none, some, Result, ok, panic, out_of_fuel, ◌>>=◌, ◌==◌,
  if◌then◌else◌,
}
use valk.Prelude.Int.{ℤ, pos_part}

abbrev pub Pointer : Type 0
Pointer = Option ℕ

pub record Node : Type 0 where
  pub next : Pointer
  pub payload : ℕ

pub record Heap : Type 0 where
  pub fresh : ℕ
  pub node : ℕ → Node

-- `&Node{payload: p}`: its address, and the heap after.
unfoldable pub alloc : ℕ → Heap → ℕ × Heap
alloc p h = (
  h.fresh,
  record {
    fresh = h.fresh + 1;
    node = λ a. if a == h.fresh then record { next = none; payload = p } else h.node a;
  },
)

-- `n.next = q`, through an address.
unfoldable pub set_next : ℕ → Pointer → Heap → Heap
set_next a q h = record h {
  node = λ b. if b == a then record { next = q; payload = (h.node b).payload } else h.node b;
}

-- The loop of `chain`, `createObjects` and `gen`, on the rounds left: a new node, linked behind
-- `prev`. `payload` is what round `i` writes into its node.
unfoldable pub link_loop : (ℕ → ℕ) → ℕ → ℕ → ℕ → Heap → Heap
unfolding alloc set_next
link_loop payload zero i prev h = h
link_loop payload (suc k) i prev h =
    let (n, h1) = alloc (payload i) h in link_loop payload k (i + 1) n (set_next prev (some n) h1)

-- `chain(n)`: the address of the first node, and the heap after. A first node is made for every n.
unfoldable pub chain : (ℕ → ℕ) → ℤ → Heap → ℕ × Heap
unfolding link_loop
chain payload n h =
    let (first, h1) = alloc 0 h in (first, link_loop payload (pos_part n - 1) 1 first h1)

-- `createObjects(amount)` and `gen(amount)`: one node more than `amount`.
unfoldable pub create_objects : ℤ → Heap → ℕ × Heap
unfolding link_loop
create_objects amount h =
    let (first, h1) = alloc 0 h in (first, link_loop (λ i. 0) (pos_part amount) 0 first h1)

-- `lenChain`, on fuel.
unfoldable pub len_loop : ℕ → Pointer → ℕ → Heap → Result ℕ
len_loop zero p c h = out_of_fuel
len_loop (suc fuel) none c h = ok c
len_loop (suc fuel) (some a) c h = len_loop fuel (h.node a).next (c + 1) h

-- A chain with no cycle has at most as many nodes as there are on the heap.
unfoldable pub len_chain : Pointer → Heap → Result ℕ
unfolding len_loop
len_chain p h = len_loop (h.fresh + 1) p 0 h

-- `verify`, on fuel: the recursion returns 1 at the last node; a nil pointer panics.
unfoldable pub verify_loop : ℕ → Pointer → Heap → Result ℕ
verify_loop zero p h = out_of_fuel
verify_loop (suc fuel) none h = panic
verify_loop (suc fuel) (some a) h = elim (h.node a).next [
  | none ↦ ok 1
  | some b ↦ do n ← verify_loop fuel (some b) h; ok (n + 1)
]

unfoldable pub verify : Pointer → Heap → Result ℕ
unfolding verify_loop
verify p h = verify_loop (h.fresh + 1) p h

-- `for tail.next != nil { tail = tail.next }`, on fuel: the address of the last node.
unfoldable pub last_loop : ℕ → ℕ → Heap → Result ℕ
last_loop zero a h = out_of_fuel
last_loop (suc fuel) a h = elim (h.node a).next [ none ↦ ok a | some b ↦ last_loop fuel b h ]

-- One round of `benchMutateLinks` from the node `head`: the first node goes to the end. `none`
-- stands for the `break` at a chain of one node.
unfoldable pub rotate_once : ℕ → Heap → Result (Option ℕ × Heap)
unfolding set_next last_loop
rotate_once head h = elim (h.node head).next [
  | none ↦ ok (none, h)
  | some second ↦ do
    let h1 = set_next head none h
    tail ← last_loop (h.fresh + 1) second h1
    ok (some second, set_next tail (some head) h1)
]

-- `for r := 0; r < rounds; r++`: the head of the list, and the heap after.
unfoldable pub rotate_loop : ℕ → ℕ → Heap → Result (ℕ × Heap)
unfolding rotate_once
rotate_loop zero list h = ok (list, h)
rotate_loop (suc rounds) list h = do
  (second, h1) ← rotate_once list h
  elim second [ none ↦ ok (list, h1) | some s ↦ rotate_loop rounds s h1 ]
