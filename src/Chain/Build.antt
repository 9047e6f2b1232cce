-- ===== src/Chain/Build.antt =====
-- `chain` and `createObjects` build a chain of new nodes.
use valk.Prelude.{
  ℕ, zero, suc, ◌+◌, ◌-◌, ◌≤◌, ◌<◌, ◌≡◌, refl, ap, ◌∙◌, ◌≢◌, none, some, List, [], ◌∷◌, arith,
  length,
}
use valk.Prelude.Int.{ℤ, pos_part}
use valk.Chain.{Heap, alloc, set_next, link_loop, chain, create_objects}
use valk.Chain.Segments.{Segment, Absent, AllDistinct, AllBelow, IsChain}

-- The addresses from `first` on.
unfoldable pub addresses : ℕ → ℕ → List ℕ
addresses zero first = []
addresses (suc k) first = first ∷ addresses k (first + 1)

pub length-addresses : (k first : ℕ) → length (addresses k first) ≡ k
unfolding addresses
length-addresses zero first = refl
length-addresses (suc k) first = ap suc (length-addresses k (first + 1))

Absent-addresses : (k first a : ℕ) → a < first → Absent a (addresses k first)
unfolding addresses
Absent-addresses zero first a lt = tt
Absent-addresses (suc k) first a lt = (omega arith, Absent-addresses k (first + 1) a (omega arith))

AllDistinct-addresses : (k first : ℕ) → AllDistinct (addresses k first)
unfolding addresses
AllDistinct-addresses zero first = tt
AllDistinct-addresses (suc k) first =
    (Absent-addresses k (first + 1) first (omega arith), AllDistinct-addresses k (first + 1))

AllBelow-addresses : (k first n : ℕ) → first + k ≤ n → AllBelow n (addresses k first)
unfolding addresses
AllBelow-addresses zero first n le = tt
AllBelow-addresses (suc k) first n le =
    (omega arith, AllBelow-addresses k (first + 1) n (omega arith))

-- After `k` rounds: `k` new nodes behind `prev`, and nothing else has changed.
record IsLinked (k prev : ℕ) (h g : Heap) : Type 0 where
  fresh : g.fresh ≡ h.fresh + k
  linked : Segment g (some prev) (prev ∷ addresses k h.fresh) none
  old : (a : ℕ) → a < h.fresh → prev ≢ a → g.node a ≡ h.node a

link_loop-IsLinked :
    (payload : ℕ → ℕ) (k i prev : ℕ) (h : Heap)
    → prev < h.fresh
    → (h.node prev).next ≡ none
    → IsLinked k prev h (link_loop payload k i prev h)
unfolding link_loop addresses
link_loop-IsLinked payload zero i prev h lt end = record {
  fresh = omega arith;
  linked = (refl, end);
  old = λ a below ne. refl;
}
link_loop-IsLinked payload (suc k) i prev h lt end =
    let (n, h1) = alloc (payload i) h in
    let h2 = set_next prev (some n) h1 in
    let rest = link_loop-IsLinked payload k (i + 1) n h2 (ground arith) (ground arith) in
    record {
      fresh = omega (arith, rest.fresh);
      linked = (refl, rw (rest.old prev (omega arith) (omega arith)) (ground arith, rest.linked.1));
      old = λ a below ne. rest.old a (omega arith) (omega arith) ∙ ground arith;
    }

-- What a builder of `count` nodes promises: a chain of `count` new nodes from the address that it
-- returns, on a heap where every older node is as before.
pub record IsBuilt (count : ℕ) (h : Heap) (first : ℕ) (g : Heap) : Type 0 where
  pub chained : IsChain g (some first) (addresses count h.fresh)
  pub fresh : g.fresh ≡ h.fresh + count
  pub old : (a : ℕ) → a < h.fresh → g.node a ≡ h.node a

first-IsBuilt :
    (payload : ℕ → ℕ) (k i : ℕ) (h : Heap)
    → IsBuilt (suc k) h h.fresh (link_loop payload k i h.fresh (alloc 0 h).1)
unfolding alloc addresses
first-IsBuilt payload k i h =
    let built = link_loop-IsLinked payload k i h.fresh (alloc 0 h).1 (omega arith) (ground arith) in
    record {
      chained = record {
        linked = built.linked;
        distinct = AllDistinct-addresses (suc k) h.fresh;
        allocated = AllBelow-addresses (suc k) h.fresh _ (omega (arith, built.fresh));
        bounded = omega (arith, built.fresh, length-addresses k (h.fresh + 1));
      };
      fresh = omega (arith, built.fresh);
      old = λ a below. built.old a (omega arith) (omega arith) ∙ ground arith;
    }

-- `chain(n)` builds a chain of n new nodes, but of one node where n is 0 or less.
pub chain-IsBuilt :
    (payload : ℕ → ℕ) (n : ℤ) (h : Heap)
    → IsBuilt (suc (pos_part n - 1)) h (chain payload n h).0 (chain payload n h).1
unfolding chain
chain-IsBuilt payload n h = first-IsBuilt payload (pos_part n - 1) 1 h

-- `createObjects(amount)` and `gen(amount)` build one node more than `amount`.
pub create_objects-IsBuilt :
    (amount : ℤ) (h : Heap)
    → IsBuilt (suc (pos_part amount)) h (create_objects amount h).0 (create_objects amount h).1
unfolding create_objects
create_objects-IsBuilt amount h = first-IsBuilt (λ i. 0) (pos_part amount) 0 h
