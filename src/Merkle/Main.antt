-- ===== src/Merkle/Main.antt =====
-- `main` of examples/bench/merkletrees/main.go. `atoi` is `strconv.Atoi`; the depths of the loop stay
-- below 2 ^ 63, so `depth += 2` does not wrap.
pub mod Printed
use Prim.Native.String.{String}
use valk.Prelude.{
  ℕ, zero, suc, ◌+◌, ◌-◌, Option, none, some, List, [], ◌∷◌, ◌++◌, true, false, Result, ok,
  out_of_fuel, ◌>>=◌, leb, if◌then◌else◌,
}
use valk.Prelude.Int.{ℤ, pos, pos_part, ltb_ℤ, signed64, add64}
use valk.Prelude.Output.{int, bool, Line, printf}
use valk.Prelude.Rounds.{repeat_add, shift_one, rounds}
use valk.Merkle.{Tree, get_hash, cal_hash, check, make}

abbrev min_depth : ℕ
min_depth = 4

unfoldable pub parse_depth : (String → Option ℤ) → List String → ℤ
parse_depth atoi (program ∷ arg ∷ rest) = elim (atoi arg) [ none ↦ pos 5 | some n ↦ n ]
parse_depth atoi _ = pos 5

unfoldable pub clamp_depth : ℤ → ℤ
clamp_depth n = if ltb_ℤ n (pos (min_depth + 2)) then pos (min_depth + 2) else n

abbrev pub root_line : String → ℤ → Tree → Line
root_line format depth hashed =
    printf format (int depth ∷ int (signed64 (get_hash hashed)) ∷ bool (check hashed) ∷ [])

-- The loop over the depths, and in it the loop that adds the hashes of fresh trees.
unfoldable pub depth_loop : ℕ → ℕ → ℕ → Result (List Line)
depth_loop zero max_depth depth = out_of_fuel
depth_loop (suc fuel) max_depth depth = elim (leb depth max_depth) [
  | false ↦ ok []
  | true ↦ do
    let iterations = shift_one (max_depth - depth + min_depth)
    sum ← repeat_add (rounds iterations) (ok (get_hash (cal_hash (make (pos depth))))) 0
    rest ← depth_loop fuel max_depth (depth + 2)
    ok (
        printf "%d\t trees of depth %d\t root hash sum: %d\n"
          (int (signed64 iterations) ∷ int (pos depth) ∷ int (signed64 sum) ∷ [])
        ∷ rest)
]

-- The rest of `main`, from a maximum depth that is at least 6.
unfoldable pub print_trees : ℕ → Result (List Line)
print_trees max_depth = do
  let stretch_depth = signed64 (add64 max_depth 1)
  let stretch_tree = cal_hash (make stretch_depth)
  middle ← depth_loop max_depth max_depth min_depth
  let long_lived_tree = cal_hash (make (pos max_depth))
  ok (
      root_line "stretch tree of depth %d\t root hash: %d check: %t\n" stretch_depth stretch_tree
        ∷ middle
      ++ root_line "long lived tree of depth %d\t root hash: %d check: %t\n" (pos max_depth)
          long_lived_tree
        ∷ [])

unfoldable pub main : (String → Option ℤ) → List String → Result (List Line)
unfolding parse_depth clamp_depth print_trees
main atoi args = print_trees (pos_part (clamp_depth (parse_depth atoi args)))
