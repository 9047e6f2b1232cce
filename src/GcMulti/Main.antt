-- ===== src/GcMulti/Main.antt =====
-- `main` of examples/bench/gc-multi/main.go. `procs` is what `runtime.GOMAXPROCS(0)` returns, `stats`
-- gives what each benchmark reads by its number (0 before the first, 7 after the last), `batch_us` the
-- time of each batch of the pause proxy.
use valk.Prelude.{ℕ, Option, none, some, List, [], ◌∷◌, ◌++◌, Result, ok, ◌>>=◌}
use valk.Prelude.Output.{Line, printf}
use valk.Gc.{number}
use valk.GcMulti.{Memory, Stats, mem_kb, sys_kb, natural, fragment, pause_proxy, live_natural}
use valk.GcMulti.Threads.{mt_local, mt_shared}

-- The constants of the benchmarks.
pub record Sizes : Type 0 where
  pub per : ℕ
  pub iters : ℕ
  pub depth : ℕ
  pub amount : ℕ
  pub rounds : ℕ
  pub batch : ℕ
  pub live : ℕ
  pub total : ℕ
  pub pause_batch : ℕ
  pub live_n : ℕ
  pub churn : ℕ

abbrev pub sizes : Sizes
sizes = record {
  per = 2000000;
  iters = 80;
  depth = 10;
  amount = 8000000;
  rounds = 40;
  batch = 50000;
  live = 300000;
  total = 6000000;
  pause_batch = 50000;
  live_n = 1000000;
  churn = 8000000;
}

-- The benchmarks after those with goroutines.
unfoldable pub single : Sizes → (ℕ → Stats) → (ℕ → ℕ) → Memory → Result (List Line)
unfolding natural fragment pause_proxy live_natural
single n stats batch_us m = do
  let (c, m) = natural n.amount (stats 3) m
  let (d, m) = fragment n.rounds n.batch (stats 4) m
  (e, m) ← pause_proxy n.live n.total n.pause_batch batch_us (stats 5) m
  (f, m) ← live_natural n.live_n n.churn (stats 6) m
  ok (c ++ d ++ e ++ f)

unfoldable pub print_all :
    ℕ → (ℕ → Stats) → (local_lines shared_lines single_lines : List Line) → List Line
print_all procs stats a b c =
    printf "Go GC hard suite\n" []
      ∷ number "GOMAXPROCS: %d\n" procs
      ∷ number "mem_kb:  %d\n" (mem_kb (stats 0))
      ∷ number "sys_kb:  %d\n" (sys_kb (stats 0))
      ∷ a
    ++ b
    ++ c
    ++ printf "\n=== done ===\n" []
      ∷ number "mem_kb:  %d\n" (mem_kb (stats 7))
      ∷ number "sys_kb:  %d\n" (sys_kb (stats 7))
      ∷ []

-- The benchmarks in their order. `none` where a schedule leaves `main` waiting.
unfoldable pub suite :
    Sizes
    → ℕ
    → (ℕ → Stats)
    → (ℕ → ℕ)
    → (local_schedule shared_schedule : List ℕ) → Memory
    → Result (Option (List Line))
unfolding mt_local mt_shared single print_all
suite n procs stats batch_us local_schedule shared_schedule m = do
  first ← mt_local n.per local_schedule (stats 1) m
  elim first [
    | none ↦ ok none
    | some (a, m1) ↦ do
      second ← mt_shared n.iters n.depth shared_schedule (stats 2)
      elim second [
        | none ↦ ok none
        | some (b, c) ↦ do
          rest ← single n stats batch_us m1
          ok (some (print_all procs stats a b rest))
      ]
  ]

unfoldable pub main :
    ℕ
    → (ℕ → Stats)
    → (ℕ → ℕ)
    → (local_schedule shared_schedule : List ℕ) → Memory
    → Result (Option (List Line))
unfolding suite
main procs stats batch_us local_schedule shared_schedule m =
    suite sizes procs stats batch_us local_schedule shared_schedule m
