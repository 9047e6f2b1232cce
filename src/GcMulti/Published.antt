-- ===== src/GcMulti/Published.antt =====
-- The goroutines of `benchMTLocal` and `benchMTShared` of examples/bench/gc-multi/main.go under every
-- schedule: both end, the mutex is free at the end, and no goroutine sees a part of a tree.
use mathlib.Core.Path.{subst}
use valk.Prelude.{
  ℕ, zero, suc, ◌+◌, ◌*◌, ◌≤◌, ◌≡◌, refl, ◌⊎◌, inl, inr, none, some, List, ◌++◌, Bool, true, false,
  arith, ok, get_elem?, ◌≢◌, ap, Bool-cases,
}
use valk.Prelude.Int.{pos}
use valk.Prelude.Threads.{
  Threads, Move, moved, blocked, finished, panicked, try_thread, all_done, find_undone, IsFine,
  ThreadRule, bit, find_free, all_done-sum_of, turn-Rule,
}
use valk.Prelude.Turns.{run_turns, run_turns-Keeps, run_turns-completes}
use valk.Prelude.Updates.{sum_of, sum_of-set, sum_of-ge, get_elem?-set_cases}
use valk.Chain.{Pointer}
use valk.GcMulti.{Memory, Stats}
use valk.GcMulti.Threads.{
  Allocator, allocate, four, has_allocated, mt_local, mt_local_lines, Root, test, lock, store,
  unlock, Phase, Publisher, publish, has_published, mt_shared, mt_shared_lines, cleared, clear_root,
}
use valk.Tree.{Tree, nil, build_tree}

-- The steps that a goroutine has left.
unfoldable allocations : Allocator → ℕ
allocations w = w.left * 2 + elim w.unstored [ none ↦ 0 | some n ↦ 1 ]

-- Nothing is claimed of the memory.
abbrev Anything : Threads Memory Allocator → Type 0
Anything s = true ≡ true

allocate-IsFine :
    (s : Threads Memory Allocator) (t : ℕ) (m : Memory) (left : ℕ) (unstored : Pointer)
    → let w : Allocator = record { left = left; unstored = unstored } in
      IsFine Anything allocations s t w (allocate m w)
unfolding IsFine allocate allocations
allocate-IsFine s t m left (some n) = (refl, omega arith)
allocate-IsFine s t m zero none = refl
allocate-IsFine s t m (suc i) none = (refl, omega arith)

allocate-moved :
    (m : Memory) (left : ℕ) (unstored : Pointer)
    → let w : Allocator = record { left = left; unstored = unstored } in
      has_allocated w ≡ false → (m' : Memory) × (w' : Allocator) × (allocate m w ≡ moved m' w')
unfolding allocate has_allocated
allocate-moved m left (some n) h = (_, _, refl)
allocate-moved m zero none h = cc
allocate-moved m (suc i) none h = (_, _, refl)

allocate-ThreadRule : ThreadRule allocate Anything allocations has_allocated
allocate-ThreadRule = record {
  fine = λ s t w e p. allocate-IsFine s t s.shared w.left w.unstored;
  free = λ s p n.
      let (t, w, e, n') = find_undone has_allocated s.workers n in
      let (m', w', move) = allocate-moved s.shared w.left w.unstored n' in (t, w, m', w', e, move);
}

-- Every schedule of `benchMTLocal` can be continued so that all goroutines end and it prints its lines.
pub mt_local-ends :
    (per : ℕ) (schedule : List ℕ) (s : Stats) (m : Memory)
    → (more : List ℕ) × (m' : Memory) × (mt_local per (schedule ++ more) s m
        ≡ ok (some (mt_local_lines per s, m')))
unfolding mt_local
mt_local-ends per schedule s m =
    let start : Threads Memory Allocator = record {
      shared = m;
      workers = four (record { left = per; unstored = none });
    } in
    let (more, end, run, p, d) =
      run_turns-completes (turn-Rule allocate-ThreadRule) start schedule refl in
    (more, end.shared, rw (mt_local, run, d) refl)

-- 1 between `Lock` and `Unlock`.
unfoldable holding : Publisher → ℕ
holding w = elim w.phase [ test ↦ 0 | lock tr ↦ 0 | store tr ↦ 1 | unlock ↦ 1 ]

unfoldable steps : Publisher → ℕ
steps w = w.left * 4 + elim w.phase [ test ↦ 0 | lock tr ↦ 3 | store tr ↦ 2 | unlock ↦ 1 ]

-- The tree that a goroutine has built is whole.
unfoldable IsBuilding : (depth : ℕ) → Phase → Type 0
IsBuilding depth test = true ≡ true
IsBuilding depth (lock tr) = tr ≡ build_tree (pos depth)
IsBuilding depth (store tr) = tr ≡ build_tree (pos depth)
IsBuilding depth unlock = true ≡ true

-- The root is nil or a whole tree.
unfoldable pub IsWhole : (depth : ℕ) → Tree → Type 0
IsWhole depth tr = (tr ≡ nil) ⊎ (tr ≡ build_tree (pos depth))

record IsPublished (depth : ℕ) (s : Threads Root Publisher) : Type 0 where
  mutex : sum_of holding s.workers ≡ bit s.shared.held
  building : (t : ℕ) (w : Publisher) → get_elem? s.workers t ≡ some w → IsBuilding depth w.phase
  root : IsWhole depth s.shared.tree

-- What a move shows of the state and the goroutine before and after.
unfoldable Shows : (depth : ℕ) → Root → Publisher → Move Root Publisher → Type 0
Shows depth c w (moved c' w') =
    (bit c'.held + holding w ≡ bit c.held + holding w')
    × IsBuilding depth w'.phase
    × IsWhole depth c'.tree
    × (steps w ≡ suc (steps w'))
Shows depth c w blocked = (c.held ≡ true) × (holding w ≡ 0)
Shows depth c w finished = has_published w ≡ true
Shows depth c w panicked = ⊥

-- Every statement, with the goroutine and the root by their fields.
statement-Shows :
    (depth : ℕ) (held : Bool) (tree : Tree) (left : ℕ) (phase : Phase)
    → let w : Publisher = record { left = left; phase = phase } in
      let c : Root = record { held = held; tree = tree } in
      IsBuilding depth phase
      → IsWhole depth tree
      → holding w ≤ bit held
      → Shows depth c w (publish depth c w)
unfolding Shows publish holding bit steps IsBuilding IsWhole has_published
statement-Shows depth held tree zero test b r m = refl
statement-Shows depth held tree (suc n) test b r m = (refl, refl, r, omega arith)
statement-Shows depth true tree left (lock tr) b r m = (refl, refl)
statement-Shows depth false tree left (lock tr) b r m = (refl, b, r, omega arith)
statement-Shows depth held tree left (store tr) b r m = (refl, refl, inr b, omega arith)
statement-Shows depth true tree left unlock b r m = (refl, refl, r, omega arith)
statement-Shows depth false tree left unlock b r m = absurd (omega arith)

publish-Shows :
    (depth : ℕ) (s : Threads Root Publisher) (t : ℕ) (w : Publisher)
    → get_elem? s.workers t ≡ some w
    → IsPublished depth s
    → Shows depth s.shared w (publish depth s.shared w)
publish-Shows depth s t w e p =
    statement-Shows depth s.shared.held s.shared.tree w.left w.phase (p.building t w e) p.root
      (omega (arith, sum_of-ge holding s.workers t w e, p.mutex))

Shows-IsFine :
    (depth : ℕ) (s : Threads Root Publisher) (t : ℕ) (w : Publisher)
    → get_elem? s.workers t ≡ some w
    → IsPublished depth s
    → (m : Move Root Publisher) → Shows depth s.shared w m
    → IsFine (IsPublished depth) steps s t w m
unfolding IsFine Shows
Shows-IsFine depth s t w e p (moved c' w') (holds, built, whole, less) = (
  record {
    mutex = omega (arith, sum_of-set holding s.workers t w w' e, p.mutex, holds);
    building = λ u v d. elim (get_elem?-set_cases s.workers t w' u v d) [
      | inl same ↦ subst (λ (x : Publisher). IsBuilding depth x.phase) same built
      | inr old ↦ p.building u v old
    ];
    root = whole;
  },
  less,
)
Shows-IsFine depth s t w e p blocked st = refl
Shows-IsFine depth s t w e p finished st = refl
Shows-IsFine depth s t w e p panicked st = st

has_published-holding :
    (left : ℕ) (phase : Phase)
    → let w : Publisher = record { left = left; phase = phase } in
      has_published w ≡ true → holding w ≡ 0
unfolding has_published holding
has_published-holding zero test h = refl
has_published-holding zero (lock tr) h = refl
has_published-holding zero (store tr) h = cc
has_published-holding zero unlock h = cc
has_published-holding (suc left) phase h = cc

Shows-moved :
    (depth : ℕ) (c : Root) (w : Publisher) (m : Move Root Publisher)
    → Shows depth c w m
    → (c.held ≡ true → holding w ≢ 0)
    → has_published w ≡ false
    → (c' : Root) × (w' : Publisher) × (m ≡ moved c' w')
unfolding Shows
Shows-moved depth c w (moved c' w') st free n = (c', w', refl)
Shows-moved depth c w blocked (h, z) free n = absurd (free h z)
Shows-moved depth c w finished d free n = cc
Shows-moved depth c w panicked st free n = absurd st

publish-ThreadRule :
    (depth : ℕ) → ThreadRule (publish depth) (IsPublished depth) steps has_published
publish-ThreadRule depth = record {
  fine = λ s t w e p.
      Shows-IsFine depth s t w e p (publish depth s.shared w) (publish-Shows depth s t w e p);
  free = λ s p n.
      let (t, w, e, free, n') =
        find_free has_published holding (λ w done. has_published-holding w.left w.phase done)
          s.workers s.shared.held p.mutex n in
      let (c', w', move) =
        Shows-moved depth s.shared w (publish depth s.shared w) (publish-Shows depth s t w e p) free
          n' in
      (t, w, c', w', e, move);
}

abbrev pub start : (iters : ℕ) → Threads Root Publisher
start iters = record { shared = cleared; workers = four (record { left = iters; phase = test }) }

get_elem?-four : {W : Type 0} {v : W} (t : ℕ) (w : W) → get_elem? (four v) t ≡ some w → v ≡ w
get_elem?-four zero w e = cc
get_elem?-four (suc zero) w e = cc
get_elem?-four (suc (suc zero)) w e = cc
get_elem?-four (suc (suc (suc zero))) w e = cc
get_elem?-four (suc (suc (suc (suc t)))) w e = cc

start-IsPublished : (depth iters : ℕ) → IsPublished depth (start iters)
unfolding sum_of holding bit IsBuilding IsWhole
start-IsPublished depth iters = record {
  mutex = refl;
  building =
      λ t w e. subst (λ (x : Publisher). IsBuilding depth x.phase) (get_elem?-four t w e) refl;
  root = inl refl;
}

-- When every goroutine is done the mutex is free, so `main` gets it.
all_done-held :
    (depth : ℕ) (s : Threads Root Publisher)
    → IsPublished depth s
    → all_done has_published s.workers ≡ true
    → s.shared.held ≡ false
unfolding bit
all_done-held depth s p d =
    let idle =
      all_done-sum_of has_published holding (λ w done. has_published-holding w.left w.phase done)
        s.workers d in
    elim (Bool-cases s.shared.held) [
      | inl h ↦ let one = ap bit h in absurd (omega (arith, p.mutex, idle, one))
      | inr h ↦ h
    ]

-- At no time does the root hold a part of a tree: under every schedule, which none panics, the root is
-- nil or a whole tree of the depth asked for.
pub publish-IsWhole :
    (iters depth : ℕ) (schedule : List ℕ)
    → (s : Threads Root Publisher) × (run_turns (try_thread (publish depth)) (start iters) schedule
        ≡ ok s)
      × IsWhole depth s.shared.tree
publish-IsWhole iters depth schedule =
    let (s, run, p) =
      run_turns-Keeps (turn-Rule (publish-ThreadRule depth)).keeps (start iters) schedule
        (start-IsPublished depth iters) in
    (s, run, p.root)

-- Every schedule of `benchMTShared` can be continued so that all goroutines end, `main` gets the mutex,
-- and the lines are printed with nil as the root.
pub mt_shared-ends :
    (iters depth : ℕ) (schedule : List ℕ) (s : Stats)
    → (more : List ℕ) × (mt_shared iters depth (schedule ++ more) s
        ≡ ok (some (mt_shared_lines iters depth s, cleared)))
unfolding mt_shared clear_root
mt_shared-ends iters depth schedule s =
    let (more, end, run, p, d) =
      run_turns-completes (turn-Rule (publish-ThreadRule depth)) (start iters) schedule
        (start-IsPublished depth iters) in
    let unheld = all_done-held depth end p d in
    (more, rw (mt_shared, run, d, clear_root, unheld) refl)
