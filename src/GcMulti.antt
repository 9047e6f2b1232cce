-- ===== src/GcMulti.antt =====
-- The benchmarks of examples/bench/gc-multi/main.go that run on one goroutine. The state is the heap
-- with the package variable `sink`. What the clock and the memory statistics give is a parameter of
-- each benchmark. The sizes of a benchmark are its first arguments; `main` passes the constants of the
-- source. A time, a size of the memory, or a number of nodes lies below 2 ^ 63.
pub mod Threads
pub mod Main
pub mod Measured
pub mod Retained
pub mod Published
pub mod Suite
use Prim.Native.String.{String}
use valk.Prelude.{
  ℕ, zero, suc, ◌+◌, ◌-◌, ◌*◌, ◌/◌, ◌%◌, ◌^◌, none, some, List, [], ◌∷◌, ◌++◌, Bool, true, false,
  Result, ok, out_of_fuel, ◌>>=◌, length, ltb, ◌==◌, if◌then◌else◌,
}
use valk.Prelude.Int.{ℤ, pos, signed64, add64}
use valk.Prelude.Output.{int, text, Line, printf}
use valk.Chain.{Pointer, Heap, alloc, set_next, chain, len_chain}
use valk.Gc.{header, print_time, number}

pub record Memory : Type 0 where
  pub heap : Heap
  pub sink : Pointer

-- `heapNode(p)`: the node's address, and the memory after.
unfoldable pub heap_node : ℕ → Memory → ℕ × Memory
unfolding alloc
heap_node p m = let (n, h) = alloc p m.heap in (n, record { heap = h; sink = some n })

-- `heapNodePair(p)`: the address of the first node.
unfoldable pub heap_node_pair : ℕ → Memory → ℕ × Memory
unfolding alloc set_next
heap_node_pair p m =
    let (a, h1) = alloc p m.heap in
    let (b, h2) = alloc ((p + 1) % 2 ^ 64) h1 in
    (a, record { heap = set_next a (some b) h2; sink = some a })

-- What one benchmark reads: its time in microseconds, and of `runtime.MemStats` the fields that it
-- prints. The fraction is given as `fmt` prints it.
pub record Stats : Type 0 where
  pub us : ℕ
  pub alloc : ℕ
  pub sys : ℕ
  pub heap_inuse : ℕ
  pub num_gc : ℕ
  pub pause_total_ns : ℕ
  pub pause_ns : ℕ → ℕ
  pub gc_cpu_fraction : String
  pub total_alloc : ℕ

-- The loop over the last pauses, on the rounds left: the greatest of them and `max`.
unfoldable pub max_loop : (ℕ → ℕ) → ℕ → ℕ → ℕ → ℕ → ℕ
max_loop pause_ns num_gc zero i max = max
max_loop pause_ns num_gc (suc n) i max =
    let pause = pause_ns ((num_gc - 1 - i) % 256) in
    max_loop pause_ns num_gc n (i + 1) (if ltb max pause then pause else max)

unfoldable pub max_pause : Stats → ℕ
unfolding max_loop
max_pause s = max_loop s.pause_ns s.num_gc (if ltb 256 s.num_gc then 256 else s.num_gc) 0 0

unfoldable pub print_gc_stats : Stats → List Line
unfolding max_pause
print_gc_stats s =
    number "num_gc:   %d\n" s.num_gc
    ∷ number "pause_total_ms: %d\n" (s.pause_total_ns / 1000000)
    ∷ number "max_pause_us: %d\n" (max_pause s / 1000)
    ∷ printf "gc_cpu_frac: %.4f\n" (text s.gc_cpu_fraction ∷ [])
    ∷ number "total_alloc_mb: %d\n" (s.total_alloc / 1024 / 1024)
    ∷ []

abbrev pub mem_kb : Stats → ℕ
mem_kb s = s.alloc / 1024

abbrev pub sys_kb : Stats → ℕ
sys_kb s = s.sys / 1024

-- The lines on memory that most benchmarks end with.
abbrev pub print_memory : Stats → List Line
print_memory s =
    number "mem_kb:   %d\n" (mem_kb s) ∷ number "sys_kb:   %d\n" (sys_kb s) ∷ print_gc_stats s

abbrev pub keep_every : ℕ
keep_every = 64

-- The loop of `benchNatural`, on the rounds left: the nodes that are kept, and the memory after.
unfoldable pub natural_loop : ℕ → ℕ → List ℕ → Memory → List ℕ × Memory
unfolding heap_node
natural_loop zero i keep m = (keep, m)
natural_loop (suc left) i keep m =
    let (n, m1) = heap_node i m in
    natural_loop left (i + 1) (if i % keep_every == 0 then keep ++ n ∷ [] else keep) m1

abbrev pub natural_lines : (amount kept : ℕ) → Stats → List Line
natural_lines amount kept s =
    header "natural pacing (no forced GC)"
      ∷ number "allocs:   %d\n" amount
      ∷ printf "retained: %d (1/%d)\n" (int (pos kept) ∷ int (pos keep_every) ∷ [])
      ∷ print_time s.us
    ++ number "rate:     %d allocs/ms\n" (amount * 1000 / (s.us + 1)) ∷ print_memory s

unfoldable pub natural : ℕ → Stats → Memory → List Line × Memory
unfolding natural_loop
natural amount s m =
    let (keep, m1) = natural_loop amount 0 [] m in (natural_lines amount (length keep) s, m1)

-- What round `i` of the inner loop of `benchFragment` does in round `r` of the outer one.
unfoldable pub fragment_round : ℕ → ℕ → List ℕ → Memory → List ℕ × Memory
unfolding heap_node heap_node_pair
fragment_round r i keep m =
    if (r + i) % 2 == 0
    then (let (n, m1) = heap_node i m in (if i % 2 == 0 then keep ++ n ∷ [] else keep, m1))
    else (let (a, m1) = heap_node_pair i m in (if i % 3 == 0 then keep ++ a ∷ [] else keep, m1))

-- The inner loop, on the rounds left.
unfoldable pub fragment_batch : ℕ → ℕ → ℕ → List ℕ → Memory → List ℕ × Memory
unfolding fragment_round
fragment_batch r zero i keep m = (keep, m)
fragment_batch r (suc left) i keep m =
    let (keep', m') = fragment_round r i keep m in fragment_batch r left (i + 1) keep' m'

-- The outer loop, on the rounds left: the checksum, as the pattern of an `int`.
unfoldable pub fragment_loop : ℕ → ℕ → ℕ → ℕ → Memory → ℕ × Memory
unfolding fragment_batch
fragment_loop batch zero r checksum m = (checksum, m)
fragment_loop batch (suc left) r checksum m =
    let (keep, m1) = fragment_batch r batch 0 [] m in
    fragment_loop batch left (r + 1) (add64 checksum (length keep)) m1

abbrev pub fragment_lines : (rounds batch : ℕ) → ℤ → Stats → List Line
fragment_lines rounds batch checksum s =
    header "fragmentation / mixed retention"
      ∷ number "rounds:   %d\n" rounds
      ∷ number "batch:    %d\n" batch
      ∷ printf "checksum: %d\n" (int checksum ∷ [])
      ∷ print_time s.us
    ++ print_memory s

unfoldable pub fragment : (rounds batch : ℕ) → Stats → Memory → List Line × Memory
unfolding fragment_loop
fragment rounds batch s m =
    let (checksum, m1) = fragment_loop batch rounds 0 0 m in
    (fragment_lines rounds batch (signed64 checksum) s, m1)

-- `chain(n)` on the heap of the memory; the node of round `i` gets the payload `i`.
unfoldable pub new_chain : ℕ → Memory → ℕ × Memory
unfolding chain
new_chain n m = let (first, h) = chain (λ i. i) (pos n) m.heap in (first, record m { heap = h })

-- `for i := 0; i < batch; i++ { heapNode(uint64(i)) }`, on the rounds left.
unfoldable pub churn_up : ℕ → ℕ → Memory → Memory
unfolding heap_node
churn_up zero i m = m
churn_up (suc left) i m = churn_up left (i + 1) (heap_node i m).1

-- `for i := churn; i > 0; i-- { heapNode(uint64(i)) }`.
unfoldable pub churn_down : ℕ → Memory → Memory
unfolding heap_node
churn_down zero m = m
churn_down (suc k) m = churn_down k (heap_node (suc k) m).1

-- The variables of the loop of `benchPauseProxy`.
pub record Pauses : Type 0 where
  pub max_us : ℕ
  pub sum_us : ℕ
  pub batches : ℕ

-- The time of the next batch.
unfoldable pub add_batch : ℕ → Pauses → Pauses
add_batch us p = record {
  max_us = if ltb p.max_us us then us else p.max_us;
  sum_us = p.sum_us + us;
  batches = p.batches + 1;
}

-- `for done := 0; done < total; done += batch`, on fuel. `batch_us` gives the time of each batch.
unfoldable pub pause_loop :
    (ℕ → ℕ) → (total batch fuel done : ℕ) → Pauses → Memory → Result (Pauses × Memory)
unfolding churn_up add_batch
pause_loop batch_us total batch zero done p m = out_of_fuel
pause_loop batch_us total batch (suc fuel) done p m = elim (ltb done total) [
  | false ↦ ok (p, m)
  | true ↦
      pause_loop batch_us total batch fuel (done + batch) (add_batch (batch_us p.batches) p)
        (churn_up batch 0 m)
]

abbrev pub pause_proxy_lines : (live total batch : ℕ) → Pauses → ℕ → Stats → List Line
pause_proxy_lines live total batch p len s =
    header "pause proxy (max batch latency)"
      ∷ number "live:     %d\n" live
      ∷ number "allocs:   %d\n" total
      ∷ number "batch:    %d\n" batch
      ∷ number "batches:  %d\n" p.batches
      ∷ print_time s.us
    ++ number "max_batch_us: %d\n" p.max_us
      ∷ number "avg_batch_us: %d\n" (p.sum_us / (p.batches + 1))
      ∷ print_memory s
    ++ number "verify:   %d\n" len ∷ []

-- A batch of one allocation or more needs at most `total` rounds.
unfoldable pub pause_proxy :
    (live total batch : ℕ) → (ℕ → ℕ) → Stats → Memory → Result (List Line × Memory)
unfolding new_chain pause_loop
pause_proxy live total batch batch_us s m = do
  let (list, m1) = new_chain live m
  (p, m2) ←
      pause_loop batch_us total batch (total + 1) 0 (record { max_us = 0; sum_us = 0; batches = 0 })
        m1
  len ← len_chain (some list) m2.heap
  ok (pause_proxy_lines live total batch p len s, m2)

abbrev pub live_natural_lines : (live churn len : ℕ) → Stats → List Line
live_natural_lines live churn len s =
    header "large live set + natural churn"
      ∷ number "live:     %d\n" live
      ∷ number "churn:    %d\n" churn
      ∷ print_time s.us
    ++ number "rate:     %d allocs/ms\n" (churn * 1000 / (s.us + 1))
      ∷ number "mem_kb:   %d\n" (mem_kb s)
      ∷ number "heap_inuse_kb: %d\n" (s.heap_inuse / 1024)
      ∷ number "sys_kb:   %d\n" (sys_kb s)
      ∷ print_gc_stats s
    ++ number "verify:   %d\n" len ∷ []

unfoldable pub live_natural : (live churn : ℕ) → Stats → Memory → Result (List Line × Memory)
unfolding new_chain churn_down
live_natural live churn s m = do
  let (list, m1) = new_chain live m
  let m2 = churn_down churn m1
  len ← len_chain (some list) m2.heap
  ok (live_natural_lines live churn len s, m2)
