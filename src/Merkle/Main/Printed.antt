-- ===== src/Merkle/Main/Printed.antt =====
-- What the Merkle benchmark prints, in closed form.
use Prim.Native.String.{String}
use valk.Prelude.{
  ℕ, zero, suc, ◌+◌, ◌-◌, ◌*◌, ◌/◌, ◌^◌, ◌≤◌, ◌<◌, ◌≡◌, ap, ◌∙◌, Option, List, [], ◌∷◌, ◌++◌, arith,
  ok, true, leb,
}
use valk.Prelude.Int.{ℤ, pos, pos_part, add64}
use valk.Prelude.Output.{int, bool, Line, printf}
use valk.Prelude.Powers.{two-pow-add, two-pow-lt_int}
use valk.Prelude.Rounds.{
  repeat_add, shift_one, rounds, repeat_add-ok, shift_one-pow, rounds-pow, signed64-small,
}
use valk.Merkle.{get_hash, cal_hash, check, make}
use valk.Merkle.Hashes.{cal_hash-IsHashed, make-IsValid, make-leaf_sum}
use valk.Merkle.Main.{parse_depth, clamp_depth, depth_loop, print_trees, main}

-- The lines of the loop: at each depth the sum of all hashes is the number of all leaves.
middle_lines : ℕ → ℕ → ℕ → List Line
middle_lines n zero depth = []
middle_lines n (suc count) depth =
    printf "%d\t trees of depth %d\t root hash sum: %d\n"
      (int (pos (2 ^ (n - depth + 4))) ∷ int (pos depth) ∷ int (pos (2 ^ (n + 4))) ∷ [])
    ∷ middle_lines n count (depth + 2)

pub all_lines : ℕ → List Line
unfolding middle_lines
all_lines n =
    printf "stretch tree of depth %d\t root hash: %d check: %t\n"
        (int (pos (n + 1)) ∷ int (pos (2 ^ (n + 1))) ∷ bool true ∷ [])
      ∷ middle_lines n (n / 2 - 1) 4
    ++ printf "long lived tree of depth %d\t root hash: %d check: %t\n"
        (int (pos n) ∷ int (pos (2 ^ n)) ∷ bool true ∷ [])
      ∷ []

-- The hash of a fresh tree of depth `d` is its number of leaves.
get_hash-make : (d : ℕ) → d < 63 → get_hash (cal_hash (make (pos d))) ≡ 2 ^ d
get_hash-make d h =
    (cal_hash-IsHashed (make (pos d)) (make-IsValid (pos d))).value
    ∙ omega (arith, make-leaf_sum (pos d), two-pow-lt_int d h)

check-make : (d : ℕ) → check (cal_hash (make (pos d))) ≡ true
check-make d = (cal_hash-IsHashed (make (pos d)) (make-IsValid (pos d))).checked

repeat_add-hashes :
    (n d : ℕ)
    → d ≤ n
    → n + 4 < 63
    → repeat_add (rounds (shift_one (n - d + 4))) (ok (2 ^ d)) 0 ≡ ok (2 ^ (n + 4))
repeat_add-hashes n d le h =
    let a = n - d + 4 in
    let split : 2 ^ (n + 4) ≡ 2 ^ a * 2 ^ d =
      ap (λ (k : ℕ). 2 ^ k) (omega arith) ∙ two-pow-add a d in
    rw (shift_one-pow a (omega arith), rounds-pow a (omega arith))
      (repeat_add-ok (2 ^ a) (2 ^ d) 0 (omega arith)
        ∙ ap ok (omega (arith, split, two-pow-lt_int (n + 4) h)))

depth_loop-middle_lines :
    (fuel n count depth : ℕ)
    → n ≤ 57
    → 4 ≤ depth
    → count ≡ (n + 2 - depth) / 2
    → count < fuel
    → depth_loop fuel n depth ≡ ok (middle_lines n count depth)
unfolding depth_loop middle_lines
depth_loop-middle_lines zero n count depth small from e enough = absurd (omega arith)
depth_loop-middle_lines (suc fuel) n zero depth small from e enough = ground arith
depth_loop-middle_lines (suc fuel) n (suc count) depth small from e enough =
    let go : leb depth n ≡ true = ground arith in
    let a = n - depth + 4 in
    rw
      (
        go,
        depth_loop,
        get_hash-make depth (omega arith),
        repeat_add-hashes n depth (omega arith) (omega arith),
        depth_loop-middle_lines fuel n count (depth + 2) small (omega arith) (omega arith)
            (omega arith),
      )
      (rw (
        shift_one-pow a (omega arith),
        signed64-small (2 ^ a) (two-pow-lt_int a (omega arith)),
        signed64-small (2 ^ (n + 4)) (two-pow-lt_int (n + 4) (omega arith)),
      ))

clamp_depth-ge : (n : ℤ) → 6 ≤ pos_part (clamp_depth n)
unfolding clamp_depth
clamp_depth-ge n = ground arith

print_trees-all_lines : (n : ℕ) → 6 ≤ n → n ≤ 57 → print_trees n ≡ ok (all_lines n)
unfolding print_trees all_lines
print_trees-all_lines n big small =
    let stretch : add64 n 1 ≡ n + 1 = omega arith in
    rw
      (
        stretch,
        signed64-small (n + 1) (omega arith),
        depth_loop-middle_lines n n (n / 2 - 1) 4 small (omega arith) (omega arith) (omega arith),
        get_hash-make (n + 1) (omega arith),
        get_hash-make n (omega arith),
        check-make (n + 1),
        check-make n,
      )
      (rw (
        signed64-small (2 ^ (n + 1)) (two-pow-lt_int (n + 1) (omega arith)),
        signed64-small (2 ^ n) (two-pow-lt_int n (omega arith)),
      ))

-- Whatever the arguments are, if the maximum depth that `main` settles on is at most 57, then its
-- loops end and it prints: each root hash is the number of leaves, each check is true, and the sums
-- of the middle lines are all 2 ^ (maximum depth + 4), with no overflow.
pub main-root_lines :
    (atoi : String → Option ℤ) (args : List String)
    → pos_part (clamp_depth (parse_depth atoi args)) ≤ 57
    → main atoi args ≡ ok (all_lines (pos_part (clamp_depth (parse_depth atoi args))))
unfolding main
main-root_lines atoi args small =
    print_trees-all_lines _ (clamp_depth-ge (parse_depth atoi args)) small
