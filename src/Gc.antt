-- ===== src/Gc.antt =====
-- The benchmarks of examples/bench/gc/main.go. The state is the heap with the two package variables
-- `sink` and `gKeep`. What the clock, the memory statistics and the collector give is a parameter of
-- each benchmark: `us` is the elapsed time in microseconds, `mem` what `memKB` returns. The constants
-- of a benchmark are its first arguments; `main` passes the values of the source. A number that is
-- printed lies below 2 ^ 63.
pub mod Verified
pub mod Freed
use Prim.Native.String.{String}
use valk.Prelude.{
  ℕ, zero, suc, ◌+◌, ◌-◌, ◌*◌, ◌/◌, ◌^◌, Option, none, some, List, [], ◌∷◌, ◌++◌, Result, ok, ◌>>=◌,
  ◌==◌, if◌then◌else◌,
}
use valk.Prelude.Int.{ℤ, pos, signed64}
use valk.Prelude.Output.{int, text, Line, printf}
use valk.Prelude.Rounds.{repeat_add}
use valk.Chain.{Pointer, Heap, alloc, set_next, chain, len_chain, rotate_loop}
use valk.Tree.{build_tree, check}

pub record World : Type 0 where
  pub heap : Heap
  pub sink : Pointer
  pub keep : Pointer

-- `heapNode`: the node's address, and the world after.
unfoldable pub heap_node : World → ℕ × World
unfolding alloc
heap_node w = let (a, h) = alloc 0 w.heap in (a, record w { heap = h; sink = some a })

-- A loop that calls `heapNode` in each of `k` rounds and drops the result.
unfoldable pub churn : ℕ → World → World
unfolding heap_node
churn zero w = w
churn (suc k) w = churn k (heap_node w).1

-- `chain(n)` on the heap of the world.
unfoldable pub new_chain : ℕ → World → ℕ × World
unfolding chain
new_chain n w = let (first, h) = chain (λ i. 0) (pos n) w.heap in (first, record w { heap = h })

abbrev pub header : String → Line
header name = printf "\n=== %s ===\n" (text name ∷ [])

abbrev pub print_time : ℕ → List Line
print_time us =
    printf "time_us:  %d\n" (int (pos us) ∷ [])
    ∷ printf "time_ms:  %d\n" (int (pos (us / 1000)) ∷ [])
    ∷ []

abbrev pub number : String → ℕ → Line
number format n = printf format (int (pos n) ∷ [])

-- `if lenChain(list) == live` with its two lines.
unfoldable pub verdict : ℕ → ℕ → Line
verdict len live = if len == live then printf "verify:   OK\n" [] else printf "verify:   FAIL\n" []

-- The loop of `benchShortLived`, from `i == k` down: at `i == 1` the node is linked behind `root`.
unfoldable pub short_loop : ℕ → ℕ → World → World
unfolding heap_node set_next
short_loop zero root w = w
short_loop (suc zero) root w =
    let (n, w1) = heap_node w in record w1 { heap = set_next root (some n) w1.heap }
short_loop (suc (suc k)) root w = short_loop (suc k) root (heap_node w).1

unfoldable pub short_lived : ℕ → ℕ → ℕ → World → Result (List Line × World)
unfolding short_loop
short_lived amount us mem w = do
  let (root, h) = alloc 0 w.heap
  let w1 = short_loop amount root (record w { heap = h })
  len ← len_chain (some root) w1.heap
  ok (
    header "short-lived alloc" ∷ number "objects:  %d\n" amount ∷ print_time us
        ++ number "rate:     %d allocs/ms\n" (amount * 1000 / (us + 1))
          ∷ number "mem_kb:   %d\n" mem
          ∷ number "verify:   %d\n" len
          ∷ [],
    w1,
  )

unfoldable pub stable_collect : ℕ → ℕ → ℕ → ℕ → World → Result (List Line × World)
unfolding new_chain churn
stable_collect live collects us mem w = do
  let (list, w1) = new_chain live w
  let w2 = churn collects w1
  len ← len_chain (some list) w2.heap
  ok (
    header "stable-heap forced collects"
          ∷ number "live:     %d\n" live
          ∷ number "collects: %d\n" collects
          ∷ print_time us
        ++ number "rate:     %d collects/s\n" (collects * 1000000 / (us + 1))
          ∷ number "mem_kb:   %d\n" mem
          ∷ verdict len live
          ∷ [],
    w2,
  )

unfoldable pub build_chain : ℕ → ℕ → ℕ → World → Result (List Line × World)
unfolding new_chain
build_chain amount us mem w = do
  let (list, w1) = new_chain amount w
  let w2 = record w1 { keep = some list }
  len ← len_chain (some list) w2.heap
  ok (
    header "build long-lived chain" ∷ number "objects:  %d\n" amount ∷ print_time us
        ++ number "rate:     %d allocs/ms\n" (amount * 1000 / (us + 1))
          ∷ number "mem_kb:   %d\n" mem
          ∷ verdict len amount
          ∷ [],
    w2,
  )

-- The early return where nothing was kept, and the rest of `benchFreeChain`.
unfoldable pub free_chain : ℕ → ℕ → World → Result (List Line × World)
free_chain us mem w = elim w.keep [
  | none ↦
      ok (header "free long-lived chain" ∷ printf "skipped: no chain from build step\n" [] ∷ [], w)
  | some list ↦ do
    amount ← len_chain (some list) w.heap
    ok (
      header "free long-lived chain" ∷ number "objects:  %d\n" amount ∷ print_time us
          ++ number "mem_kb:   %d\n" mem ∷ number "verify:   %d\n" amount ∷ [],
      record w { keep = none },
    )
]

unfoldable pub mutate_links : ℕ → ℕ → ℕ → ℕ → World → Result (List Line × World)
unfolding new_chain
mutate_links live rounds us mem w = do
  let (list, w1) = new_chain live w
  (list, h) ← rotate_loop rounds list w1.heap
  len ← len_chain (some list) h
  ok (
    header "mutate live links"
          ∷ number "live:     %d\n" live
          ∷ number "rounds:   %d\n" rounds
          ∷ print_time us
        ++ number "mem_kb:   %d\n" mem ∷ verdict len live ∷ [],
    record w1 { heap = h },
  )

unfoldable pub churn_with_live : ℕ → ℕ → ℕ → ℕ → World → Result (List Line × World)
unfolding new_chain churn
churn_with_live live rounds us mem w = do
  let (list, w1) = new_chain live w
  let w2 = churn rounds w1
  len ← len_chain (some list) w2.heap
  ok (
    header "short-lived churn with large live set"
          ∷ number "live:     %d\n" live
          ∷ number "churn:    %d\n" rounds
          ∷ print_time us
        ++ number "rate:     %d allocs/ms\n" (rounds * 1000 / (us + 1))
          ∷ number "mem_kb:   %d\n" mem
          ∷ verdict len live
          ∷ [],
    w2,
  )

unfoldable pub tree_churn : ℕ → ℕ → ℕ → ℕ → Result (List Line)
tree_churn depth trees us mem = do
  sum ← repeat_add trees (check (build_tree (pos depth))) 0
  ok (
      header "tree churn"
        ∷ number "depth:    %d\n" depth
        ∷ number "trees:    %d\n" trees
        ∷ number "nodes:    ~%d\n" (trees * (2 ^ (depth + 1) - 1))
        ∷ print_time us
      ++ number "mem_kb:   %d\n" mem ∷ printf "verify:   %d\n" (int (signed64 sum) ∷ []) ∷ [])

-- The order of `main`, with the clock and the memory of each benchmark by its number.
unfoldable pub main : (us mem : ℕ → ℕ) → World → Result (List Line)
unfolding short_lived stable_collect build_chain free_chain mutate_links churn_with_live tree_churn
main us mem w = do
  (a, w) ← short_lived 10000000 (us 1) (mem 1) w
  (b, w) ← stable_collect 500000 500 (us 2) (mem 2) w
  (c, w) ← build_chain 5000000 (us 3) (mem 3) w
  (d, w) ← free_chain (us 4) (mem 4) w
  (e, w) ← mutate_links 200000 50 (us 5) (mem 5) w
  (f, w) ← churn_with_live 500000 5000000 (us 6) (mem 6) w
  g ← tree_churn 14 400 (us 7) (mem 7)
  ok (
      printf "Go GC bench suite\n" []
        ∷ number "mem_kb before: %d\n" (mem 0)
        ∷ printf "GOGC: %s\n" (text "default" ∷ [])
        ∷ a
      ++ b
      ++ c
      ++ d
      ++ e
      ++ f
      ++ g
      ++ printf "\n=== done ===\n" [] ∷ number "mem_kb after: %d\n" (mem 8) ∷ [])
