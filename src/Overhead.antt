-- ===== src/Overhead.antt =====
-- `main` of examples/bench/gc-overhead/main.go. The collections leave the objects as they are; the
-- elapsed time, as `fmt` prints it and in whole milliseconds, is a parameter.
use Prim.Native.String.{String}
use valk.Prelude.{
  ℕ, ◌+◌, ◌*◌, ◌/◌, ◌≡◌, refl, some, List, [], ◌∷◌, Result, ok, panic, ◌>>=◌, ◌==◌, if◌then◌else◌,
  Bool-cases, inl, inr,
}
use valk.Prelude.Int.{pos}
use valk.Prelude.Output.{int, text, Line, printf}
use valk.Chain.{Heap, create_objects, verify}
use valk.Chain.Walk.{verify-create_objects}

abbrev repeat : ℕ
repeat = 50

abbrev object_count : ℕ
object_count = 500 * 1000

-- `repeat * 1000 / int(elapsed / time.Millisecond)`: a run-time panic where less than a millisecond
-- has passed.
unfoldable pub collects_per_second : ℕ → Result ℕ
collects_per_second ms = if ms == 0 then panic else ok (repeat * 1000 / ms)

unfoldable pub main : String → ℕ → Heap → Result (List Line)
main elapsed ms h = do
  let (list, h1) = create_objects (pos object_count) h
  rate ← collects_per_second ms
  n ← verify (some list) h1
  ok (
      printf "# Create objects\n" []
      ∷ printf "# Start\n" []
      ∷ printf "# Done\n" []
      ∷ printf "> Finished %d collections in %s.\n" (int (pos repeat) ∷ text elapsed ∷ [])
      ∷ printf "> Collects per second: %d\n" (int (pos rate) ∷ [])
      ∷ (if n == object_count + 1 then printf "> Verify: OK\n" [] else printf "> Verify: FAIL\n" [])
      ∷ [])

-- What `main` prints where its self-check succeeds and `ms` milliseconds, one or more, have passed.
unfoldable pub verified_lines : String → ℕ → List Line
verified_lines elapsed ms =
    printf "# Create objects\n" []
    ∷ printf "# Start\n" []
    ∷ printf "# Done\n" []
    ∷ printf "> Finished %d collections in %s.\n" (int (pos 50) ∷ text elapsed ∷ [])
    ∷ printf "> Collects per second: %d\n" (int (pos (50000 / ms)) ∷ [])
    ∷ printf "> Verify: OK\n" []
    ∷ []

-- On every heap, and whatever the elapsed time: `main` panics where less than a millisecond has passed, and
-- else it prints six lines, the rate of 50000 over the milliseconds and "Verify: OK" among them. The
-- self-check never fails.
pub main-verified :
    (elapsed : String) (ms : ℕ) (h : Heap)
    → main elapsed ms h ≡ (if ms == 0 then panic else ok (verified_lines elapsed ms))
unfolding main verified_lines collects_per_second
main-verified elapsed ms h =
    let v = verify-create_objects (pos object_count) h in
    elim (Bool-cases (ms == 0)) [
      | inl none_passed ↦ rw (main, none_passed) refl
      | inr passed ↦ rw (main, passed, v) refl
    ]
