-- ===== src/GcMulti/Suite.antt =====
-- What examples/bench/gc-multi/main.go prints.
use valk.Prelude.{ℕ, ◌+◌, ◌*◌, ◌/◌, ◌^◌, ◌≤◌, ◌<◌, ◌≡◌, refl, ◌∙◌, ap, some, List, ◌++◌, arith, ok}
use valk.Prelude.Int.{pos}
use valk.Prelude.Output.{Line}
use valk.GcMulti.{
  Memory, Stats, Pauses, print_gc_stats, natural, fragment, natural_lines, fragment_lines,
  pause_proxy_lines, live_natural_lines,
}
use valk.GcMulti.Main.{Sizes, sizes, single, print_all, suite, main}
use valk.GcMulti.Measured.{IsMeasured, pause_proxy-IsMeasured, live_natural-live}
use valk.GcMulti.Published.{mt_local-ends, mt_shared-ends}
use valk.GcMulti.Retained.{natural-retained, fragment-checksum}
use valk.GcMulti.Threads.{mt_local_lines, mt_shared_lines}

-- The sizes that the suite is meant for.
pub record IsSized (n : Sizes) : Type 0 where
  pub small : n.rounds * n.batch < 2 ^ 63
  pub some_live : 1 ≤ n.live
  pub some_batch : 0 < n.pause_batch
  pub some_live_n : 1 ≤ n.live_n

-- What `benchFragment` keeps in all.
unfoldable pub retained : (rounds batch : ℕ) → ℕ
retained rounds batch =
    (rounds + 1) / 2 * ((batch + 1) / 2 + (batch + 2) / 6) + rounds / 2 * ((batch + 5) / 6)

abbrev pub single_lines : Sizes → (ℕ → Stats) → Pauses → List Line
single_lines n stats p =
    natural_lines n.amount ((n.amount + 63) / 64) (stats 3)
    ++ fragment_lines n.rounds n.batch (pos (retained n.rounds n.batch)) (stats 4)
    ++ pause_proxy_lines n.live n.total n.pause_batch p n.live (stats 5)
    ++ live_natural_lines n.live_n n.churn n.live_n (stats 6)

single-lines :
    (n : Sizes) (stats : ℕ → Stats) (batch_us : ℕ → ℕ) (m : Memory)
    → IsSized n
    → (p : Pauses) × (n.total ≤ p.batches * n.pause_batch)
      × (p.batches * n.pause_batch < n.total + n.pause_batch)
      × IsMeasured batch_us p
      × (single n stats batch_us m ≡ ok (single_lines n stats p))
unfolding single retained print_gc_stats
single-lines n stats batch_us m is_sized =
    let m1 = (natural n.amount (stats 3) m).1 in
    let m2 = (fragment n.rounds n.batch (stats 4) m1).1 in
    let (p, m3, run, covers, tight, is) =
      pause_proxy-IsMeasured n.live n.total n.pause_batch batch_us (stats 5) m2 is_sized.some_live
        is_sized.some_batch in
    let (m4, live) = live_natural-live n.live_n n.churn (stats 6) m3 is_sized.some_live_n in
    let rest =
      pause_proxy_lines n.live n.total n.pause_batch p n.live (stats 5)
      ++ live_natural_lines n.live_n n.churn n.live_n (stats 6) in
    (
      p,
      covers,
      tight,
      is,
      rw (single, run, live) refl
          ∙ ap (λ c. ok (c ++ (fragment n.rounds n.batch (stats 4) m1).0 ++ rest))
              (natural-retained n.amount (stats 3) m)
          ∙ ap (λ d. ok (natural_lines n.amount ((n.amount + 63) / 64) (stats 3) ++ d ++ rest))
              (fragment-checksum n.rounds n.batch (stats 4) m1 is_sized.small),
    )

-- For live chains of one node or more, batches of one allocation or more, and a checksum that is an
-- `int`, and whatever the clock and the memory statistics say: the schedules of both groups of
-- goroutines can be continued so that the suite ends without a panic and prints all of its lines. The
-- publishing goroutines leave the mutex to `main`, the retained nodes and the checksum are the numbers
-- of the closed forms, the batches cover the total and no more, with the greatest and the sum of their
-- times, and each live chain has the length it was built with.
pub suite-prints :
    (n : Sizes) (procs : ℕ) (stats : ℕ → Stats) (batch_us : ℕ → ℕ)
    (local_schedule shared_schedule : List ℕ) (m : Memory)
    → IsSized n
    → (more more' : List ℕ) × (p : Pauses) × (n.total ≤ p.batches * n.pause_batch)
      × (p.batches * n.pause_batch < n.total + n.pause_batch)
      × IsMeasured batch_us p
      × (suite n procs stats batch_us (local_schedule ++ more) (shared_schedule ++ more') m
          ≡ ok (
              some (
                print_all procs stats
                  (mt_local_lines n.per (stats 1))
                  (mt_shared_lines n.iters n.depth (stats 2))
                  (single_lines n stats p))))
unfolding suite
suite-prints n procs stats batch_us local_schedule shared_schedule m is_sized =
    let (more, m1, first) = mt_local-ends n.per local_schedule (stats 1) m in
    let (more', second) = mt_shared-ends n.iters n.depth shared_schedule (stats 2) in
    let (p, covers, tight, is, rest) = single-lines n stats batch_us m1 is_sized in
    (more, more', p, covers, tight, is, rw (suite, first, second, rest) refl)

-- The constants of the source are such sizes: `main` can be run to its end from every schedule, with
-- 120 batches.
pub main-prints :
    (procs : ℕ) (stats : ℕ → Stats) (batch_us : ℕ → ℕ) (local_schedule shared_schedule : List ℕ)
    (m : Memory)
    → (more more' : List ℕ) × (p : Pauses) × (p.batches ≡ 120)
      × IsMeasured batch_us p
      × (main procs stats batch_us (local_schedule ++ more) (shared_schedule ++ more') m
          ≡ ok (
              some (
                print_all procs stats
                  (mt_local_lines 2000000 (stats 1))
                  (mt_shared_lines 80 10 (stats 2))
                  (single_lines sizes stats p))))
unfolding main
main-prints procs stats batch_us local_schedule shared_schedule m =
    let is_sized : IsSized sizes = record {
      small = omega arith;
      some_live = omega arith;
      some_batch = omega arith;
      some_live_n = omega arith;
    } in
    let (more, more', p, covers, tight, is, e) =
      suite-prints sizes procs stats batch_us local_schedule shared_schedule m is_sized in
    (more, more', p, omega arith, is, e)
