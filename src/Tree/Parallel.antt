-- ===== src/Tree/Parallel.antt =====
-- `main` of examples/bench/binary-tree-multi/main.go: one goroutine for each depth, which sends its
-- result on a channel with room for all of them. The order in which they arrive is up to the
-- scheduler: the parameter `arrive` stands for it. `atoi` is `strconv.Atoi`.
pub mod Ordered
use Prim.Native.String.{String}
use valk.Prelude.{
  ℕ, zero, suc, ◌+◌, ◌-◌, ◌/◌, Option, none, some, List, [], ◌∷◌, ◌++◌, map, true, false, Result,
  ok, panic, out_of_fuel, ◌>>=◌, leb, if◌then◌else◌, replicate,
}
use valk.Prelude.Gather.{gather}
use valk.Prelude.Int.{ℤ, pos, pos_part, ltb_ℤ, signed64, add64}
use valk.Prelude.Output.{Arg, int, Line, printf}
use valk.Prelude.Rounds.{repeat_add, shift_one, rounds}
use valk.Tree.{make_tree, item_check}

abbrev min_depth : ℕ
min_depth = 4

pub record TreeResult : Type 0 where
  pub index : ℕ
  pub iterations : ℕ
  pub depth : ℕ
  pub check : ℕ

-- What `checkDepth` sends.
unfoldable pub check_depth : ℕ → ℕ → ℕ → Result TreeResult
check_depth index depth iterations = do
  check ← repeat_add (rounds iterations) (make_tree (pos depth) >>= item_check) 0
  ok (record { index = index; iterations = iterations; depth = depth; check = check })

-- The loop that starts the goroutines, and what each of them sends.
unfoldable pub start_checks : ℕ → ℕ → ℕ → ℕ → Result (List TreeResult)
start_checks zero max_depth index depth = out_of_fuel
start_checks (suc fuel) max_depth index depth = elim (leb depth max_depth) [
  | false ↦ ok []
  | true ↦ do
    sent ← check_depth index depth (shift_one (max_depth - depth + min_depth))
    rest ← start_checks fuel max_depth (index + 1) (depth + 2)
    ok (sent ∷ rest)
]

-- The argument, or 5; an argument that is no number panics.
unfoldable pub parse_depth : (String → Option ℤ) → List String → Result ℤ
parse_depth atoi (program ∷ arg ∷ rest) = elim (atoi arg) [ none ↦ panic | some n ↦ ok n ]
parse_depth atoi _ = ok (pos 5)

unfoldable pub clamp_depth : ℤ → ℤ
clamp_depth n = if ltb_ℤ n (pos (min_depth + 2)) then pos (min_depth + 2) else n

abbrev pub result_line : TreeResult → Line
result_line r =
    printf "%d\t trees of depth %d\t check: %d\n"
      (int (signed64 r.iterations) ∷ int (pos r.depth) ∷ int (signed64 r.check) ∷ [])

abbrev pub zero_result : TreeResult
zero_result = record { index = 0; iterations = 0; depth = 0; check = 0 }

-- The rest of `main`, from a maximum depth that is at least 6.
unfoldable pub print_trees : (List TreeResult → List TreeResult) → ℕ → Result (List Line)
print_trees arrive max_depth = do
  let stretch_depth = signed64 (add64 max_depth 1)
  stretch ← make_tree stretch_depth >>= item_check
  long_lived ← make_tree (pos max_depth)
  sent ← start_checks max_depth max_depth 0 min_depth
  let result_count = (max_depth - min_depth) / 2 + 1
  results ← gather (λ r. r.index) (arrive sent) (replicate result_count zero_result)
  check ← item_check long_lived
  ok (
      printf "stretch tree of depth %d\t check: %d\n"
          (int stretch_depth ∷ int (signed64 stretch) ∷ [])
        ∷ map result_line results
      ++ printf "long lived tree of depth %d\t check: %d\n"
          (int (pos max_depth) ∷ int (signed64 check) ∷ [])
        ∷ [])

unfoldable pub main :
    (String → Option ℤ) → (List TreeResult → List TreeResult) → List String → Result (List Line)
unfolding parse_depth clamp_depth print_trees
main atoi arrive args = do n ← parse_depth atoi args; print_trees arrive (pos_part (clamp_depth n))
