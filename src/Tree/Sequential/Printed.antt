-- ===== src/Tree/Sequential/Printed.antt =====
-- What the sequential benchmark prints, in closed form.
use Prim.Native.String.{String}
use valk.Prelude.{
  ℕ, zero, suc, ◌+◌, ◌-◌, ◌*◌, ◌/◌, ◌^◌, ◌≤◌, ◌<◌, ◌≡◌, refl, ap, ◌∙◌, Option, List, [], ◌∷◌, ◌++◌,
  arith, ok, true, leb,
}
use valk.Prelude.Int.{ℤ, pos, pos_part, add64}
use valk.Prelude.Output.{int, Line, printf}
use valk.Prelude.Powers.{two-pow-add, two-pow-lt_int}
use valk.Prelude.Rounds.{
  repeat_add, shift_one, rounds, repeat_add-ok, shift_one-pow, rounds-pow, signed64-small,
}
use valk.Tree.{bottom_up_tree, item_check}
use valk.Tree.Count.{item_check-bottom_up_tree}
use valk.Tree.Sequential.{parse_depth, clamp_depth, depth_loop, print_trees, main}

-- The nodes of a perfect tree of depth `d`.
abbrev pub perfect : ℕ → ℕ
perfect d = 2 ^ (d + 1) - 1

-- The lines of the loop: `count` depths from `depth` on, in steps of two, with 2 ^ (n - depth + 4)
-- trees each.
unfoldable pub middle_lines : ℕ → ℕ → ℕ → List Line
middle_lines n zero depth = []
middle_lines n (suc count) depth =
    printf "%d\t trees of depth %d\t check: %d\n" (
      int (pos (2 ^ (n - depth + 4)))
      ∷ int (pos depth)
      ∷ int (pos (2 ^ (n - depth + 4) * perfect depth))
      ∷ [])
    ∷ middle_lines n count (depth + 2)

unfoldable pub all_lines : ℕ → List Line
unfolding middle_lines
all_lines n =
    printf "stretch tree of depth %d\t check: %d\n"
        (int (pos (n + 1)) ∷ int (pos (perfect (n + 1))) ∷ [])
      ∷ middle_lines n (n / 2 - 1) 4
    ++ printf "long lived tree of depth %d\t check: %d\n" (int (pos n) ∷ int (pos (perfect n)) ∷ [])
      ∷ []

pub perfect-lt : (d : ℕ) → d ≤ 61 → perfect d < 2 ^ 63
perfect-lt d h = omega (arith, two-pow-lt_int (d + 1) (omega arith))

pub item_check-perfect : (d : ℕ) → d ≤ 61 → item_check (bottom_up_tree (pos d)) ≡ ok (perfect d)
item_check-perfect d h = item_check-bottom_up_tree (pos d) ∙ ap ok (omega (arith, perfect-lt d h))

-- All trees of one depth together have fewer than 2 ^ (a + d + 1) nodes.
pub product-lt : (a d : ℕ) → a + d + 1 < 63 → 2 ^ a * perfect d < 2 ^ 63
product-lt a d h =
    let below : 2 ^ a * perfect d ≤ 2 ^ a * 2 ^ (d + 1) = grind arith in
    let e : 2 ^ (a + (d + 1)) ≡ 2 ^ a * 2 ^ (d + 1) = two-pow-add a (d + 1) in
    omega (arith, two-pow-lt_int (a + (d + 1)) (omega arith))

-- The rounds for one depth.
pub repeat_add-perfect :
    (a d : ℕ)
    → a + d + 1 < 63
    → repeat_add (rounds (shift_one a)) (ok (perfect d)) 0 ≡ ok (2 ^ a * perfect d)
repeat_add-perfect a d h =
    rw (shift_one-pow a (omega arith), rounds-pow a (omega arith))
      (repeat_add-ok (2 ^ a) (perfect d) 0 (omega arith) ∙ ap ok (omega (arith, product-lt a d h)))

depth_loop-middle_lines :
    (fuel n count depth : ℕ)
    → n ≤ 57
    → 4 ≤ depth
    → count ≡ (n + 2 - depth) / 2
    → count < fuel
    → depth_loop fuel n depth ≡ ok (middle_lines n count depth)
unfolding depth_loop middle_lines
depth_loop-middle_lines zero n count depth small from e enough = absurd (omega arith)
depth_loop-middle_lines (suc fuel) n zero depth small from e enough = ground arith
depth_loop-middle_lines (suc fuel) n (suc count) depth small from e enough =
    let go : leb depth n ≡ true = ground arith in
    let a = n - depth + 4 in
    rw
      (
        go,
        depth_loop,
        item_check-perfect depth (omega arith),
        repeat_add-perfect a depth (omega arith),
        depth_loop-middle_lines fuel n count (depth + 2) small (omega arith) (omega arith)
            (omega arith),
      )
      (rw
        (
          shift_one-pow a (omega arith),
          signed64-small (2 ^ a) (two-pow-lt_int a (omega arith)),
          signed64-small (2 ^ a * perfect depth) (product-lt a depth (omega arith)),
        )
        refl)

clamp_depth-ge : (n : ℤ) → 6 ≤ pos_part (clamp_depth n)
unfolding clamp_depth
clamp_depth-ge n = ground arith

pub print_trees-all_lines : (n : ℕ) → 6 ≤ n → n ≤ 57 → print_trees n ≡ ok (all_lines n)
unfolding print_trees all_lines
print_trees-all_lines n big small =
    let stretch : add64 n 1 ≡ n + 1 = omega arith in
    rw
      (
        stretch,
        signed64-small (n + 1) (omega arith),
        item_check-perfect (n + 1) (omega arith),
        depth_loop-middle_lines n n (n / 2 - 1) 4 small (omega arith) (omega arith) (omega arith),
        item_check-perfect n (omega arith),
      )
      (rw
        (
          signed64-small (perfect (n + 1)) (perfect-lt (n + 1) (omega arith)),
          signed64-small (perfect n) (perfect-lt n (omega arith)),
        )
        refl)

-- Whatever the arguments are, if the maximum depth that `main` settles on is at most 57, then `main`
-- does not panic, its loops end, and the lines that it prints are those of the closed form: each
-- check is the number of trees times the number of nodes of a perfect tree, with no overflow.
pub main-all_lines :
    (atoi : String → Option ℤ) (args : List String)
    → pos_part (clamp_depth (parse_depth atoi args)) ≤ 57
    → main atoi args ≡ ok (all_lines (pos_part (clamp_depth (parse_depth atoi args))))
unfolding main
main-all_lines atoi args small =
    print_trees-all_lines _ (clamp_depth-ge (parse_depth atoi args)) small
