-- ===== src/Lock/Printed.antt =====
-- What examples/bench/shared-lock/main.go prints: no update is lost.
use mathlib.Core.List.{Perm}
use mathlib.Core.Path.{subst}
use valk.Prelude.{
  ℕ, zero, suc, ◌+◌, ◌*◌, ◌^◌, ◌≤◌, ◌<◌, ◌≡◌, refl, ◌⊎◌, inl, inr, none, some, List, [], ◌∷◌, ◌++◌,
  true, false, arith, ok, map, get_elem?, length, length-append, Bool-cases,
}
use valk.Prelude.Threads.{bit, Threads, try_thread, all_done, all_done-sum_of, turn-Rule}
use valk.Prelude.Turns.{run_turns, run_turns-Keeps, run_turns-completes}
use valk.Prelude.Updates.{sum_of}
use valk.Lock.{
  word_prefix, words_loop, words, Items, value_at, Counts, test, lock, read, write, unlock, Phase,
  Worker, advance,
}
use valk.Lock.Counted.{occurrences, pending, pending_all, holding, sum_values, IsDistinct, IsFresh}
use valk.Lock.Main.{work, seeds, start, is_done, counts_line, run}
use valk.Lock.Steps.{IsCounted, lock-ThreadRule}
use valk.Lock.Visited.{tally-visit}

-- How often the four streams pick a key.
unfoldable pub key_count : List (List ℕ) → ℕ → List ℕ → ℕ
unfolding occurrences
key_count keys updates k =
    occurrences keys k updates 1
    + (occurrences keys k updates 2 + (occurrences keys k updates 3 + occurrences keys k updates 4))

-- The count of the key that the four streams pick most often.
unfoldable pub IsMost : List (List ℕ) → ℕ → ℕ → Type 0
IsMost keys updates most =
    ((k : List ℕ) → key_count keys updates k ≤ most)
    × ((k : List ℕ) × (key_count keys updates k ≡ most))

words_loop-length :
    (format_uint : ℕ → List ℕ) (n i : ℕ) (result : List (List ℕ))
    → length (words_loop format_uint n i result) ≡ length result + n
unfolding words_loop
words_loop-length format_uint zero i result = omega arith
words_loop-length format_uint (suc n) i result = omega (
  arith,
  words_loop-length format_uint n (i + 1) (result ++ (word_prefix ++ format_uint i) ∷ []),
  length-append result ((word_prefix ++ format_uint i) ∷ []),
)

pending-done :
    (keys : List (List ℕ)) (k : List ℕ) (left r : ℕ) (phase : Phase)
    → let w : Worker = record { left = left; r = r; phase = phase } in
      is_done w ≡ true → (pending keys k w ≡ 0) × (pending_all w ≡ 0)
unfolding is_done pending pending_all occurrences
pending-done keys k zero r test h = (refl, refl)
pending-done keys k zero r (lock key) h = cc
pending-done keys k zero r (read key) h = cc
pending-done keys k zero r (write key value) h = cc
pending-done keys k zero r unlock h = cc
pending-done keys k (suc left) r phase h = cc

module _ (keys : List (List ℕ)) (updates : ℕ) where
  start-IsFresh :
      (ns : List ℕ) (t : ℕ) (w : Worker)
      → get_elem? (map (work updates) ns) t ≡ some w
      → IsFresh [] w.phase
  unfolding work IsFresh
  start-IsFresh [] t w e = cc
  start-IsFresh (n ∷ ns) zero w e =
      let d : work updates n ≡ w = cc in subst (λ x. IsFresh [] x.phase) d refl
  start-IsFresh (n ∷ ns) (suc t) w e = start-IsFresh ns t w e

  start-IsCounted : IsCounted keys (key_count keys updates) (updates * 4) (start updates)
  unfolding start work sum_of holding bit pending pending_all key_count value_at sum_values
      IsDistinct
  start-IsCounted = record {
    mutex = refl;
    fresh = start-IsFresh seeds;
    counts = λ k. omega arith;
    distinct = refl;
    total = omega arith;
  }

-- Everything is counted at the end.
module _ (format_uint : ℕ → List ℕ) (visit : Items → Items) (count updates : ℕ) (schedule : List ℕ)
    (small : updates * 4 < 2 ^ 64) (perm : (items : Items) → Perm (visit items) items)
    (s : Threads Counts Worker)
    (e : run_turns (try_thread (advance (words format_uint count))) (start updates) schedule ≡ ok s)
    (p : IsCounted
      (words format_uint count)
      (key_count (words format_uint count) updates)
      (updates * 4)
      s) where
  run-counted :
      all_done is_done s.workers ≡ true
      → (most : ℕ) × IsMost (words format_uint count) updates most
        × (run format_uint visit count updates schedule
            ≡ ok (some (counts_line count (updates * 4, most))))
  unfolding run IsMost
  run-counted d =
      let keys = words format_uint count in
      let items = s.shared.items in
      let rest = λ (k : List ℕ).
        all_done-sum_of is_done (pending keys k)
          (λ w dw. (pending-done keys k w.left w.r w.phase dw).0) s.workers d in
      let none_left =
        all_done-sum_of is_done pending_all (λ w dw. (pending-done keys [] w.left w.r w.phase dw).1)
          s.workers d in
      let whole : sum_values items ≡ updates * 4 = omega (arith, p.total, none_left) in
      let (most, t, above, (k, at)) =
        tally-visit visit items (perm items) p.distinct (omega arith) in
      (
        most,
        (
          λ j. omega (arith, p.counts j, rest j, above j),
          (k, omega (arith, p.counts k, rest k, at)),
        ),
        rw (run, e, d, t, whole) refl,
      )

  run-waits :
      all_done is_done s.workers ≡ false → run format_uint visit count updates schedule ≡ ok none
  unfolding run
  run-waits d = rw (run, e, d) refl

-- For a map that `range` visits entry by entry in some order, one key or more, and fewer than 2 ^ 64
-- updates in all: no schedule of the four goroutines panics, and one that lets them all finish prints
-- exactly the number of updates made, four times `updates`, and as `most` how often the streams pick
-- the key that they pick most often. No update is lost, whatever the schedule and the order.
pub run-no_lost_update :
    (format_uint : ℕ → List ℕ) (visit : Items → Items) (count updates : ℕ) (schedule : List ℕ)
    → ((items : Items) → Perm (visit items) items)
    → 0 < count
    → updates * 4 < 2 ^ 64
    → (run format_uint visit count updates schedule ≡ ok none)
      ⊎ ((most : ℕ) × IsMost (words format_uint count) updates most
          × (run format_uint visit count updates schedule
              ≡ ok (some (counts_line count (updates * 4, most)))))
unfolding words
run-no_lost_update format_uint visit count updates schedule perm h small =
    let keys = words format_uint count in
    let rule = turn-Rule (
      lock-ThreadRule keys (omega (arith, words_loop-length format_uint count 0 []))
        (key_count keys updates) (updates * 4) small) in
    let (s, e, p) =
      run_turns-Keeps rule.keeps (start updates) schedule (start-IsCounted keys updates) in
    elim (Bool-cases (all_done is_done s.workers)) [
      | inl d ↦ inr (run-counted format_uint visit count updates schedule small perm s e p d)
      | inr d ↦ inl (run-waits format_uint visit count updates schedule small perm s e p d)
    ]

-- For a map that `range` visits entry by entry in some order, one key or more, and fewer than 2 ^ 64
-- updates in all: every schedule can be continued so that all four goroutines finish and the line with
-- all updates counted is printed: no goroutine waits for the mutex for ever.
pub run-all_counted :
    (format_uint : ℕ → List ℕ) (visit : Items → Items) (count updates : ℕ) (schedule : List ℕ)
    → ((items : Items) → Perm (visit items) items)
    → 0 < count
    → updates * 4 < 2 ^ 64
    → (more : List ℕ) × (most : ℕ) × IsMost (words format_uint count) updates most
      × (run format_uint visit count updates (schedule ++ more)
          ≡ ok (some (counts_line count (updates * 4, most))))
unfolding words
run-all_counted format_uint visit count updates schedule perm h small =
    let keys = words format_uint count in
    let rule = turn-Rule (
      lock-ThreadRule keys (omega (arith, words_loop-length format_uint count 0 []))
        (key_count keys updates) (updates * 4) small) in
    let (more, s, e, p, d) =
      run_turns-completes rule (start updates) schedule (start-IsCounted keys updates) in
    let (most, is_most, r) =
      run-counted format_uint visit count updates (schedule ++ more) small perm s e p d in
    (more, most, is_most, r)
