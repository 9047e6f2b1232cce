-- ===== src/Tree/Parallel/Ordered.antt =====
-- The parallel benchmark prints the lines of the sequential one, whatever the order of arrival.
use Prim.Native.String.{String}
use native.Mathlib.Nat.{zero-add}
use mathlib.Core.List.{Perm}
use valk.Prelude.{
  ℕ, zero, suc, ◌+◌, ◌-◌, ◌*◌, ◌/◌, ◌^◌, ◌≤◌, ◌<◌, ◌≡◌, refl, ap, ◌∙◌, some, List, [], ◌∷◌, map,
  arith, ok, ◌>>=◌, true, leb, length, get_elem?, replicate, length-replicate,
}
use valk.Prelude.Gather.{gather-jobs}
use valk.Prelude.Int.{pos, add64}
use valk.Prelude.Powers.{two-pow-lt_int}
use valk.Prelude.Rounds.{shift_one, shift_one-pow, signed64-small}
use valk.Tree.{make_tree, item_check}
use valk.Tree.Count.{make_tree-bottom_up}
use valk.Tree.Sequential.Printed.{
  perfect, middle_lines, all_lines, item_check-perfect, product-lt, perfect-lt, repeat_add-perfect,
}
use valk.Tree.Parallel.{
  TreeResult, check_depth, start_checks, result_line, zero_result, print_trees,
}

TreeResult-set : IsSet TreeResult
TreeResult-set = hlevel

-- The results in the order of their depths, from `index` and `depth` on.
sent_results : ℕ → ℕ → ℕ → ℕ → List TreeResult
sent_results n zero index depth = []
sent_results n (suc count) index depth =
    record {
      index = index;
      iterations = shift_one (n - depth + 4);
      depth = depth;
      check = 2 ^ (n - depth + 4) * perfect depth;
    }
    ∷ sent_results n count (index + 1) (depth + 2)

make_tree-perfect : (d : ℕ) → d ≤ 61 → (make_tree (pos d) >>= item_check) ≡ ok (perfect d)
make_tree-perfect d h = rw (make_tree-bottom_up d) (item_check-perfect d h)

start_checks-sent_results :
    (fuel n count index depth : ℕ)
    → n ≤ 57
    → 4 ≤ depth
    → count ≡ (n + 2 - depth) / 2
    → count < fuel
    → start_checks fuel n index depth ≡ ok (sent_results n count index depth)
unfolding start_checks sent_results check_depth
start_checks-sent_results zero n count index depth small from e enough = absurd (omega arith)
start_checks-sent_results (suc fuel) n zero index depth small from e enough = ground arith
start_checks-sent_results (suc fuel) n (suc count) index depth small from e enough =
    let go : leb depth n ≡ true = ground arith in
    let a = n - depth + 4 in
    rw (
      go,
      start_checks,
      make_tree-perfect depth (omega arith),
      repeat_add-perfect a depth (omega arith),
      start_checks-sent_results fuel n count (index + 1) (depth + 2) small (omega arith)
          (omega arith) (omega arith),
    )

sent_results-indexed :
    (n count first depth i : ℕ) {r : TreeResult}
    → get_elem? (sent_results n count first depth) i ≡ some r
    → r.index ≡ first + i
unfolding sent_results
sent_results-indexed n zero first depth i h = cc
sent_results-indexed n (suc count) first depth zero h = ground arith
sent_results-indexed n (suc count) first depth (suc i) h =
    omega (arith, sent_results-indexed n count (first + 1) (depth + 2) i h)

length-sent_results : (n count first depth : ℕ) → length (sent_results n count first depth) ≡ count
unfolding sent_results
length-sent_results n zero first depth = refl
length-sent_results n (suc count) first depth =
    ap suc (length-sent_results n count (first + 1) (depth + 2))

map-result_line :
    (n count index depth : ℕ)
    → n ≤ 57
    → 4 ≤ depth
    → count ≡ (n + 2 - depth) / 2
    → map result_line (sent_results n count index depth) ≡ middle_lines n count depth
unfolding sent_results middle_lines
map-result_line n zero index depth small from e = refl
map-result_line n (suc count) index depth small from e =
    let a = n - depth + 4 in
    rw (
      map-result_line n count (index + 1) (depth + 2) small (omega arith) (omega arith),
      shift_one-pow a (omega arith),
      signed64-small (2 ^ a) (two-pow-lt_int a (omega arith)),
      signed64-small (2 ^ a * perfect depth) (product-lt a depth (omega arith)),
    )

module _ (arrive : List TreeResult → List TreeResult)
    (any_order : (sent : List TreeResult) → Perm (arrive sent) sent) where
  pub print_trees-all_lines : (n : ℕ) → 6 ≤ n → n ≤ 57 → print_trees arrive n ≡ ok (all_lines n)
  unfolding print_trees all_lines
  print_trees-all_lines n big small =
      let stretch : add64 n 1 ≡ n + 1 = omega arith in
      let count = n / 2 - 1 in
      let sent = sent_results n count 0 4 in
      let fits : length (replicate ((n - 4) / 2 + 1) zero_result) ≡ length sent =
        omega (
          arith,
          length-replicate ((n - 4) / 2 + 1) zero_result,
          length-sent_results n count 0 4,
        ) in
      rw
        (
          stretch,
          signed64-small (n + 1) (omega arith),
          make_tree-perfect (n + 1) (omega arith),
          make_tree-bottom_up n,
          start_checks-sent_results n n count 0 4 small (omega arith) (omega arith) (omega arith),
          gather-jobs TreeResult-set (λ r. r.index) sent
              (λ i r h. sent_results-indexed n count 0 4 i h ∙ zero-add i) (arrive sent) _
              (any_order sent) fits,
          item_check-perfect n (omega arith),
          map-result_line n count 0 4 small (omega arith) (omega arith),
        )
        (rw (
          signed64-small (perfect (n + 1)) (perfect-lt (n + 1) (omega arith)),
          signed64-small (perfect n) (perfect-lt n (omega arith)),
        ))
