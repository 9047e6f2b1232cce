-- ===== src/GcMulti/Threads.antt =====
-- The benchmarks of examples/bench/gc-multi/main.go that start goroutines: `benchMTLocal`, where each
-- allocates for itself, and `benchMTShared`, where each publishes trees behind a mutex. The scheduler
-- is a list of the goroutines' numbers.
use valk.Prelude.{
  ℕ, zero, suc, ◌+◌, ◌-◌, ◌*◌, ◌/◌, ◌^◌, Option, none, some, List, [], ◌∷◌, ◌++◌, Bool, true, false,
  Result, ok, ◌>>=◌, if◌then◌else◌,
}
use valk.Prelude.Int.{pos}
use valk.Prelude.Output.{int, Line, printf}
use valk.Prelude.Threads.{Move, moved, blocked, finished, panicked, try_thread, all_done}
use valk.Prelude.Turns.{run_turns}
use valk.Chain.{Pointer, alloc}
use valk.Gc.{header, print_time, number}
use valk.GcMulti.{Memory, Stats, print_memory}
use valk.Tree.{Tree, nil, build_tree}

-- A goroutine of `benchMTLocal`: the rounds left, and in a round the node that is not yet stored.
pub record Allocator : Type 0 where
  pub left : ℕ
  pub unstored : Pointer

-- `for i := per; i > 0; i-- { heapNode(uint64(i)) }`, the allocation and the store as two steps.
unfoldable pub allocate : Memory → Allocator → Move Memory Allocator
unfolding alloc
allocate m w = elim w.unstored [
  | some n ↦
      moved (record { heap = m.heap; sink = some n }) (record { left = w.left; unstored = none })
  | none ↦ elim w.left [
    | zero ↦ finished
    | suc i ↦
        let (n, h) = alloc (suc i) m.heap in
        moved (record { heap = h; sink = m.sink }) (record { left = i; unstored = some n })
  ]
]

-- `const threads = 4`: the goroutines at their start.
abbrev pub four : {W : Type 0} → W → List W
four w = w ∷ w ∷ w ∷ w ∷ []

abbrev pub threads : ℕ
threads = 4

unfoldable pub has_allocated : Allocator → Bool
has_allocated w = elim w.left [
  | zero ↦ elim w.unstored [ none ↦ true | some n ↦ false ]
  | suc n ↦ false
]

abbrev pub mt_local_lines : ℕ → Stats → List Line
mt_local_lines per s =
    header "mt-local churn (no share)"
      ∷ number "threads:  %d\n" threads
      ∷ number "per_thr:  %d\n" per
      ∷ number "total:    %d\n" (threads * per)
      ∷ print_time s.us
    ++ number "rate:     %d allocs/ms\n" (threads * per * 1000 / (s.us + 1)) ∷ print_memory s

-- `none` where the schedule leaves `wg.Wait` waiting.
unfoldable pub mt_local : (per : ℕ) → List ℕ → Stats → Memory → Result (Option (List Line × Memory))
mt_local per schedule s m = do
  end ←
      run_turns (try_thread allocate)
        (record { shared = m; workers = four (record { left = per; unstored = none }) }) schedule
  ok (if all_done has_allocated end.workers then some (mt_local_lines per s, end.shared) else none)

-- `sharedMu` and `sharedRoot`.
pub record Root : Type 0 where
  pub held : Bool
  pub tree : Tree

-- Where a goroutine of `benchMTShared` stands in a round: at the loop's test, before `Lock`, before
-- the store, and before `Unlock`.
pub data Phase : Type 0 where
  test : Phase
  lock : Tree → Phase
  store : Tree → Phase
  unlock : Phase

pub record Publisher : Type 0 where
  pub left : ℕ
  pub phase : Phase

unfoldable pub publish : (depth : ℕ) → Root → Publisher → Move Root Publisher
publish depth c w = elim w.phase [
  | test ↦ elim w.left [
    | zero ↦ finished
    | suc n ↦ moved c (record { left = n; phase = lock (build_tree (pos depth)) })
  ]
  | lock tr ↦
      if c.held
      then blocked
      else moved (record { held = true; tree = c.tree }) (record w { phase = store tr })
  | store tr ↦ moved (record { held = c.held; tree = tr }) (record w { phase = unlock })
  | unlock ↦
      if c.held
      then moved (record { held = false; tree = c.tree }) (record w { phase = test })
      else panicked
]

unfoldable pub has_published : Publisher → Bool
has_published w = elim w.left [ zero ↦ elim w.phase [ test ↦ true | _ ↦ false ] | suc n ↦ false ]

abbrev pub mt_shared_lines : (iters depth : ℕ) → Stats → List Line
mt_shared_lines iters depth s =
    header "mt-shared publish/replace"
      ∷ number "threads:  %d\n" threads
      ∷ number "iters:    %d / thread\n" iters
      ∷ printf "depth:    %d (~%d nodes/tree)\n"
          (int (pos depth) ∷ int (pos (2 ^ (depth + 1) - 1)) ∷ [])
      ∷ number "publishes:%d\n" (threads * iters)
      ∷ print_time s.us
    ++ print_memory s

-- The root before the goroutines start: `sharedRoot.Store(nil)`.
abbrev pub cleared : Root
cleared = record { held = false; tree = nil }

-- After `wg.Wait`: `none` where `main` waits for the mutex for ever.
unfoldable pub clear_root : Root → Option Root
clear_root c = if c.held then none else some (record { held = false; tree = nil })

unfoldable pub mt_shared : (iters depth : ℕ) → List ℕ → Stats → Result (Option (List Line × Root))
unfolding clear_root
mt_shared iters depth schedule s = do
  end ←
      run_turns (try_thread (publish depth))
        (record { shared = cleared; workers = four (record { left = iters; phase = test }) })
        schedule
  ok (
      if all_done has_published end.workers
      then elim (clear_root end.shared) [
        | none ↦ none
        | some c ↦ some (mt_shared_lines iters depth s, c)
      ]
      else none)
