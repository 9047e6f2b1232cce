-- ===== src/Gc/Freed.antt =====
-- The remaining benchmarks of gc: the freed chain, the short-lived nodes and the trees.
use valk.Prelude.{
  ℕ, zero, suc, ◌+◌, ◌-◌, ◌*◌, ◌%◌, ◌^◌, ◌≤◌, ◌<◌, ◌≡◌, refl, ap, ◌∙◌, Option, none, some, List, [],
  ◌∷◌, arith, Result, ok, panic, out_of_fuel, ◌>>=◌,
}
use valk.Prelude.Int.{pos}
use valk.Prelude.Output.{Line, printf}
use valk.Prelude.Rounds.{repeat_add-ok, signed64-small}
use valk.Chain.{Pointer, alloc, len_chain}
use valk.Chain.Build.{length-addresses}
use valk.Chain.Segments.{IsChain}
use valk.Chain.Walk.{len_chain-IsChain}
use valk.Gc.{
  World, heap_node, number, short_loop, short_lived, build_chain, new_chain, free_chain, tree_churn,
}
use valk.Gc.Verified.{last_line, last, new_chain-IsChain}
use valk.Tree.{build_tree, check}
use valk.Tree.Count.{check-nodes, build_tree-bottom_up, bottom_up_tree-IsPerfect, ne_nil_of_IsFull}

-- What is kept after a benchmark that ends without a panic.
abbrev pub kept : Result (List Line × World) → Option Pointer
kept (ok (ls, w)) = some w.keep
kept panic = none
kept out_of_fuel = none

-- `benchBuildChain` and then `benchFreeChain`.
abbrev pub build_then_free : ℕ → ℕ → ℕ → ℕ → ℕ → World → Result (List Line × World)
build_then_free amount us mem us' mem' w = do
  (_, w1) ← build_chain amount us mem w
  free_chain us' mem' w1

-- `benchBuildChain` and then `benchFreeChain`: the second finds the chain of the first, prints its
-- length, and leaves no root.
pub free_chain-build_chain :
    (amount us mem us' mem' : ℕ) (w : World)
    → 1 ≤ amount
    → (last_line (build_then_free amount us mem us' mem' w) ≡ some (number "verify:   %d\n" amount))
      × (kept (build_then_free amount us mem us' mem' w) ≡ some none)
unfolding build_chain free_chain
free_chain-build_chain amount us mem us' mem' w h =
    let len : len_chain (some (new_chain amount w).0) (new_chain amount w).1.heap ≡ ok amount =
      len_chain-IsChain (new_chain-IsChain amount w h)
      ∙ ap ok (length-addresses amount w.heap.fresh) in
    (ground (arith, len), ground (arith, len))

-- With no chain kept `benchFreeChain` changes nothing.
pub free_chain_skips :
    (us mem : ℕ) (w : World)
    → w.keep ≡ none
    → last_line (free_chain us mem w) ≡ some (printf "skipped: no chain from build step\n" [])
unfolding free_chain
free_chain_skips us mem w h = rw (h, free_chain)

-- After the loop the root is followed by exactly one node.
short_loop-IsChain :
    (k root : ℕ) (w : World)
    → root < w.heap.fresh
    → (n : ℕ) × IsChain (short_loop (suc k) root w).heap (some root) (root ∷ n ∷ [])
unfolding short_loop
short_loop-IsChain zero root w lt = (
  w.heap.fresh,
  record {
    linked = (refl, (ground arith, ground arith));
    distinct = ((omega arith, tt), (tt, tt));
    allocated = (omega arith, (omega arith, tt));
    bounded = omega arith;
  },
)
short_loop-IsChain (suc k) root w lt =
    let (n, is) = short_loop-IsChain k root (heap_node w).1 (omega arith) in (n, is)

-- `benchShortLived`: of all the nodes the last one alone is linked, so it prints 2.
pub short_lived-two :
    (amount us mem : ℕ) (w : World)
    → 1 ≤ amount
    → last_line (short_lived amount us mem w) ≡ some (number "verify:   %d\n" 2)
unfolding short_lived
short_lived-two zero us mem w h = absurd (omega arith)
short_lived-two (suc k) us mem w h =
    let (n, is) =
      short_loop-IsChain k w.heap.fresh (record w { heap = (alloc 0 w.heap).1 }) (omega arith) in
    rw (len_chain-IsChain is)

check-build_tree : (d : ℕ) → check (build_tree (pos d)) ≡ ok ((2 ^ (d + 1) - 1) % 2 ^ 64)
check-build_tree d =
    let perfect = bottom_up_tree-IsPerfect (pos d) in
    rw (build_tree-bottom_up (pos d))
      (check-nodes _ (ne_nil_of_IsFull _ perfect.full) ∙ ap ok (omega (arith, perfect.size)))

repeated_sum : (k x : ℕ) → k * x < 2 ^ 63 → (0 + k * (x % 2 ^ 64)) % 2 ^ 64 ≡ k * x
repeated_sum zero x h = omega arith
repeated_sum (suc k) x h =
    let small : x ≤ suc k * x = grind arith in
    let e : x % 2 ^ 64 ≡ x = omega arith in rw e (omega arith)

-- The last line of what `benchTreeChurn` prints.
abbrev pub last_printed : Result (List Line) → Option Line
last_printed (ok ls) = last ls
last_printed panic = none
last_printed out_of_fuel = none

-- `benchTreeChurn` adds up the nodes of all its trees, as long as the sum is an `int`.
pub tree_churn-nodes :
    (depth trees us mem : ℕ)
    → trees * (2 ^ (depth + 1) - 1) < 2 ^ 63
    → last_printed (tree_churn depth trees us mem)
      ≡ some (number "verify:   %d\n" (trees * (2 ^ (depth + 1) - 1)))
unfolding tree_churn
tree_churn-nodes depth trees us mem h =
    let x = 2 ^ (depth + 1) - 1 in
    rw (
      check-build_tree depth,
      repeat_add-ok trees (x % 2 ^ 64) 0 (omega arith),
      repeated_sum trees x h,
      signed64-small (trees * x) h,
    )
