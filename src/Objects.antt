-- ===== src/Objects.antt =====
-- `create_objects`, `longlived_objects`, `free_objects` and `main` of examples/bench/objects/main.go.
-- The state is the heap with the package variable `keep`; `amount` is the variable of that name. The
-- elapsed milliseconds and the two numbers of the memory statistics are parameters. `gen` and `verify`
-- are `create_objects` and `verify` of Chain.
use Prim.Native.String.{String}
use valk.Prelude.{
  ℕ, zero, suc, ◌+◌, ◌/◌, ◌≡◌, refl, ◌∙◌, ap, none, some, List, [], ◌∷◌, ◌++◌, Result, ok, ◌>>=◌,
}
use valk.Prelude.Int.{ℤ, pos}
use valk.Prelude.Output.{int, Line, printf}
use valk.Chain.{Pointer, Heap, set_next, link_loop, create_objects, verify}
use valk.Chain.Walk.{verify-create_objects}
use valk.Gc.{number}

pub record State : Type 0 where
  pub heap : Heap
  pub keep : Pointer

abbrev gen : ℤ → Heap → ℕ × Heap
gen = create_objects

-- The line of a benchmark with the amount and the time, and the one with the length.
abbrev timed : String → ℕ → ℕ → Line
timed format amount ms = printf format (int (pos amount) ∷ int (pos ms) ∷ [])

-- The loop of `create_objects`, on the rounds left.
unfoldable pub drop_loop : ℕ → ℕ → Heap → ℕ × Heap
drop_loop zero first h = (first, h)
drop_loop (suc i) first h = let (n, h1) = gen (pos 0) h in drop_loop i n h1

abbrev created_lines : (amount ms len : ℕ) → List Line
created_lines amount ms len =
    timed "Created %d objects in %d ms\n" amount ms ∷ number "Verify: %d\n" len ∷ []

-- `create_objects` of objects.
unfoldable pub short_objects : (amount ms : ℕ) → State → Result (List Line × State)
unfolding drop_loop
short_objects amount ms s = do
  let (first, h) = gen (pos 0) s.heap
  let (first, h) = drop_loop amount first h
  len ← verify (some first) h
  ok (created_lines amount ms len, record s { heap = h })

-- The loop of `longlived_objects`, on the rounds left.
unfoldable pub append_loop : ℕ → ℕ → Heap → Heap
append_loop zero last h = h
append_loop (suc i) last h =
    let (n, h1) = gen (pos 0) h in append_loop i n (set_next last (some n) h1)

abbrev longlived_lines : (amount ms len : ℕ) → List Line
longlived_lines amount ms len =
    timed "Created %d long lived objects in %d ms\n" amount ms ∷ number "Verify: %d\n" len ∷ []

unfoldable pub longlived_objects : (amount ms : ℕ) → State → Result (List Line × State)
unfolding append_loop
longlived_objects amount ms s = do
  let (first, h) = gen (pos 0) s.heap
  let h = append_loop amount first h
  len ← verify (some first) h
  ok (longlived_lines amount ms len, record { heap = h; keep = some first })

abbrev freed_lines : (amount ms len : ℕ) → List Line
freed_lines amount ms len =
    timed "Free %d long lived objects in %d ms\n" amount ms ∷ number "Verify: %d\n" len ∷ []

unfoldable pub free_objects : (amount ms : ℕ) → State → Result (List Line × State)
free_objects amount ms s = do
  check ← verify s.keep s.heap
  ok (freed_lines amount ms check, record { heap = s.heap; keep = none })

abbrev pub log_mem_usage : (sys alloc : ℕ) → List Line
log_mem_usage sys alloc =
    number "Sys mem usage = %v KB\n" (sys / 1024)
    ∷ number "Alloc mem usage = %v KB\n" (alloc / 1024)
    ∷ []

abbrev newline : Line
newline = printf "\n" []

-- The three benchmarks with their times, and what the statistics say after each.
unfoldable pub main : (amount : ℕ) → (ms sys alloc : ℕ → ℕ) → State → Result (List Line × State)
unfolding short_objects longlived_objects free_objects
main amount ms sys alloc s = do
  (a, s) ← short_objects amount (ms 1) s
  (b, s) ← longlived_objects amount (ms 2) s
  (c, s) ← free_objects amount (ms 3) s
  ok (
    newline ∷ a
        ++ log_mem_usage (sys 1) (alloc 1)
        ++ newline ∷ b
        ++ log_mem_usage (sys 2) (alloc 2)
        ++ newline ∷ c
        ++ log_mem_usage (sys 3) (alloc 3)
        ++ newline ∷ [],
    s,
  )

-- Every object of `create_objects` is a node of its own, with no next.
verify-drop_loop :
    (i : ℕ) (h : Heap)
    → let (first, h1) = gen (pos 0) h in
      let (last, h2) = drop_loop i first h1 in verify (some last) h2 ≡ ok 1
unfolding drop_loop
verify-drop_loop zero h = verify-create_objects (pos 0) h
verify-drop_loop (suc i) h = verify-drop_loop i (gen (pos 0) h).1

append_loop-link_loop :
    (i k last : ℕ) (h : Heap) → append_loop i last h ≡ link_loop (λ j. 0) i k last h
unfolding append_loop create_objects link_loop
append_loop-link_loop zero k last h = refl
append_loop-link_loop (suc i) k last h = append_loop-link_loop i (k + 1) _ _

-- The long-lived objects are the chain that `create_objects` of Chain builds.
longlived-create_objects :
    (amount : ℕ) (h : Heap)
    → append_loop amount (gen (pos 0) h).0 (gen (pos 0) h).1 ≡ (create_objects (pos amount) h).1
unfolding create_objects link_loop
longlived-create_objects amount h = append_loop-link_loop amount 0 _ _

verify-longlived :
    (amount : ℕ) (h : Heap)
    → verify (some (gen (pos 0) h).0) (append_loop amount (gen (pos 0) h).0 (gen (pos 0) h).1)
      ≡ ok (amount + 1)
unfolding create_objects
verify-longlived amount h =
    ap (verify (some h.fresh)) (longlived-create_objects amount h)
    ∙ verify-create_objects (pos amount) h

-- The lines of a run whose checks find the lengths that were built.
abbrev pub main_lines : (amount : ℕ) → (ms sys alloc : ℕ → ℕ) → List Line
main_lines amount ms sys alloc =
    newline ∷ created_lines amount (ms 1) 1
    ++ log_mem_usage (sys 1) (alloc 1)
    ++ newline ∷ longlived_lines amount (ms 2) (amount + 1)
    ++ log_mem_usage (sys 2) (alloc 2)
    ++ newline ∷ freed_lines amount (ms 3) (amount + 1)
    ++ log_mem_usage (sys 3) (alloc 3)
    ++ newline ∷ []

-- For every amount, every heap, and whatever the clock and the statistics say: `main` ends without a
-- panic, the last object of the first benchmark is alone, the long-lived chain has one node more than
-- `amount` when it is built and when it is freed, and no root is left.
pub main-verify :
    (amount : ℕ) (ms sys alloc : ℕ → ℕ) (s : State)
    → (h : Heap) × (main amount ms sys alloc s
        ≡ ok (main_lines amount ms sys alloc, record { heap = h; keep = none }))
unfolding main
main-verify amount ms sys alloc s =
    let h1 = (drop_loop amount (gen (pos 0) s.heap).0 (gen (pos 0) s.heap).1).1 in
    let h2 = append_loop amount (gen (pos 0) h1).0 (gen (pos 0) h1).1 in
    let whole = verify-longlived amount h1 in
    (h2, rw (main, verify-drop_loop amount s.heap, whole, whole) refl)
