-- ===== src/Tree/Sequential.antt =====
-- `main` of examples/bench/binary-tree/main.go. `strconv.Atoi` is the parameter `atoi`: the number
-- that a text stands for, `none` where it returns an error. The depths that the loop runs through
-- stay below 2 ^ 63, so `depth += 2` does not wrap.
pub mod Printed
use Prim.Native.String.{String}
use valk.Prelude.{
  ℕ, zero, suc, ◌+◌, ◌-◌, Option, none, some, List, [], ◌∷◌, ◌++◌, Bool, true, false, Result, ok,
  out_of_fuel, ◌>>=◌, leb, if◌then◌else◌,
}
use valk.Prelude.Int.{ℤ, pos, pos_part, ltb_ℤ, signed64, add64}
use valk.Prelude.Output.{Arg, int, Line, printf}
use valk.Prelude.Rounds.{repeat_add, shift_one, rounds}
use valk.Tree.{bottom_up_tree, item_check}

abbrev pub min_depth : ℕ
min_depth = 4

-- The maximum depth as the first argument sets it; `os.Args` begins with the program's name.
unfoldable pub parse_depth : (String → Option ℤ) → List String → ℤ
parse_depth atoi (program ∷ arg ∷ rest) = elim (atoi arg) [ none ↦ pos 5 | some n ↦ n ]
parse_depth atoi _ = pos 5

-- `if minDepth+2 > maxDepth`
unfoldable pub clamp_depth : ℤ → ℤ
clamp_depth n = if ltb_ℤ n (pos (min_depth + 2)) then pos (min_depth + 2) else n

abbrev pub stretch_line : ℤ → ℕ → Line
stretch_line depth check =
    printf "stretch tree of depth %d\t check: %d\n" (int depth ∷ int (signed64 check) ∷ [])

abbrev pub trees_line : ℕ → ℕ → ℕ → Line
trees_line iterations depth check =
    printf "%d\t trees of depth %d\t check: %d\n"
      (int (signed64 iterations) ∷ int (pos depth) ∷ int (signed64 check) ∷ [])

abbrev pub long_lived_line : ℕ → ℕ → Line
long_lived_line depth check =
    printf "long lived tree of depth %d\t check: %d\n" (int (pos depth) ∷ int (signed64 check) ∷ [])

-- `for depth := minDepth; depth <= maxDepth; depth += 2`
unfoldable pub depth_loop : ℕ → ℕ → ℕ → Result (List Line)
depth_loop zero max_depth depth = out_of_fuel
depth_loop (suc fuel) max_depth depth = elim (leb depth max_depth) [
  | false ↦ ok []
  | true ↦ do
    let iterations = shift_one (max_depth - depth + min_depth)
    check ← repeat_add (rounds iterations) (item_check (bottom_up_tree (pos depth))) 0
    rest ← depth_loop fuel max_depth (depth + 2)
    ok (trees_line iterations depth check ∷ rest)
]

-- The rest of `main`, from a maximum depth that is at least 6.
unfoldable pub print_trees : ℕ → Result (List Line)
print_trees max_depth = do
  let stretch_depth = signed64 (add64 max_depth 1)
  stretch ← item_check (bottom_up_tree stretch_depth)
  middle ← depth_loop max_depth max_depth min_depth
  long_lived ← item_check (bottom_up_tree (pos max_depth))
  ok (stretch_line stretch_depth stretch ∷ middle ++ long_lived_line max_depth long_lived ∷ [])

unfoldable pub main : (String → Option ℤ) → List String → Result (List Line)
unfolding parse_depth clamp_depth print_trees
main atoi args = print_trees (pos_part (clamp_depth (parse_depth atoi args)))
