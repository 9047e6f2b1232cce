-- ===== src/Gc/Verified.antt =====
-- The self-checks of the benchmarks always succeed.
use valk.Prelude.{
  ℕ, zero, suc, ◌+◌, ◌-◌, ◌≤◌, ◌<◌, ◌≡◌, refl, ap, ◌∙◌, Option, none, some, List, [], ◌∷◌, arith,
  Result, ok, panic, out_of_fuel,
}
use valk.Prelude.Int.{pos}
use valk.Prelude.Output.{Line, printf}
use valk.Chain.{len_chain}
use valk.Chain.Build.{addresses, length-addresses, chain-IsBuilt}
use valk.Chain.Rotate.{length-rotations, rotate_loop-rotations}
use valk.Chain.Segments.{IsChain, IsChain-grown}
use valk.Chain.Walk.{len_chain-IsChain}
use valk.Gc.{
  World, heap_node, churn, new_chain, verdict, stable_collect, build_chain, mutate_links,
  churn_with_live,
}

-- The last line of a benchmark that ends without a panic.
abbrev pub last : List Line → Option Line
last [] = none
last (l ∷ []) = some l
last (l ∷ m ∷ ls) = last (m ∷ ls)

abbrev pub last_line : Result (List Line × World) → Option Line
last_line (ok (ls, w)) = last ls
last_line panic = none
last_line out_of_fuel = none

abbrev pub verify_ok : Line
verify_ok = printf "verify:   OK\n" []

verdict-eq : (n : ℕ) → verdict n n ≡ verify_ok
unfolding verdict
verdict-eq n = ground arith

-- Allocations in a loop leave the older nodes alone.
churn-old :
    (k : ℕ) (w : World)
    → (w.heap.fresh ≤ (churn k w).heap.fresh)
      × ((a : ℕ) → a < w.heap.fresh → (churn k w).heap.node a ≡ w.heap.node a)
unfolding churn
churn-old zero w = (omega arith, λ a lt. refl)
churn-old (suc k) w =
    let (grown, same) = churn-old k (heap_node w).1 in
    (omega arith, λ a lt. same a (omega arith) ∙ ground arith)

-- The chain that a benchmark starts with, as long as it is asked for.
pub new_chain-IsChain :
    (n : ℕ) (w : World)
    → 1 ≤ n
    → IsChain (new_chain n w).1.heap (some (new_chain n w).0) (addresses n w.heap.fresh)
unfolding new_chain
new_chain-IsChain (suc n) w h =
    let same : suc (suc n - 1) ≡ suc n = omega arith in
    rw same at (chain-IsBuilt (λ i. 0) (pos (suc n)) w.heap).chained
new_chain-IsChain zero w h = absurd (omega arith)

-- Its length is still that after any number of allocations.
len_chain-churn :
    (n k : ℕ) (w : World)
    → 1 ≤ n
    → len_chain (some (new_chain n w).0) (churn k (new_chain n w).1).heap ≡ ok n
len_chain-churn n k w h =
    let (grown, same) = churn-old k (new_chain n w).1 in
    len_chain-IsChain (
      IsChain-grown (new_chain n w).1.heap (churn k (new_chain n w).1).heap
        (new_chain-IsChain n w h) grown same)
    ∙ ap ok (length-addresses n w.heap.fresh)

-- `benchStableCollect`: the live chain is whole after the collections, so the last line says OK.
pub stable_collect-ok :
    (live collects us mem : ℕ) (w : World)
    → 1 ≤ live
    → last_line (stable_collect live collects us mem w) ≡ some verify_ok
unfolding stable_collect
stable_collect-ok live collects us mem w h = rw (len_chain-churn live collects w h, verdict-eq live)

-- `benchChurnWithLive`: so does the one that allocates while the chain is live.
pub churn_with_live-ok :
    (live rounds us mem : ℕ) (w : World)
    → 1 ≤ live
    → last_line (churn_with_live live rounds us mem w) ≡ some verify_ok
unfolding churn_with_live
churn_with_live-ok live rounds us mem w h = rw (len_chain-churn live rounds w h, verdict-eq live)

-- `benchBuildChain`: the chain that is built has `amount` nodes.
pub build_chain-ok :
    (amount us mem : ℕ) (w : World)
    → 1 ≤ amount
    → last_line (build_chain amount us mem w) ≡ some verify_ok
unfolding build_chain
build_chain-ok amount us mem w h = rw (
  len_chain-IsChain (new_chain-IsChain amount w h),
  length-addresses amount w.heap.fresh,
  verdict-eq amount,
)

-- `benchMutateLinks`: however many rounds turn the list, it ends, and the list has as many nodes as
-- before.
pub mutate_links-ok :
    (live rounds us mem : ℕ) (w : World)
    → 1 ≤ live
    → last_line (mutate_links live rounds us mem w) ≡ some verify_ok
unfolding mutate_links addresses
mutate_links-ok zero rounds us mem w h = absurd (omega arith)
mutate_links-ok (suc n) rounds us mem w h =
    let w1 = (new_chain (suc n) w).1 in
    let start = new_chain-IsChain (suc n) w h in
    let (b, g, run, is) =
      rotate_loop-rotations rounds w1.heap (new_chain (suc n) w).0 (addresses n (w.heap.fresh + 1))
        start in
    rw (
      run,
      len_chain-IsChain is,
      length-rotations,
      length-addresses n (w.heap.fresh + 1),
      verdict-eq (suc n),
    )
