-- ===== src/Tests/Trees.antt =====
-- The tree benchmarks at small depths.
use Prim.Native.String.{String}
use valk.Prelude.{◌%◌, ◌^◌, ◌≡◌, Option, some, List, [], ◌∷◌, arith, ok}
use valk.Prelude.Int.{ℤ, pos, pos_part}
use valk.Tree.{Tree, nil, node, check}
use valk.Tree.Count.{nodes, check-nodes}
use valk.Tree.Parallel
use valk.Tree.Parallel.{TreeResult}
use valk.Tree.Sequential
use valk.Tree.Sequential.Printed.{all_lines, main-all_lines}
use valk.Merkle
use valk.Merkle.Hashes.{IsHashed, cal_hash-IsHashed, make-IsValid}
use valk.Merkle.Main as MerkleMain
use valk.Merkle.Main.Printed as MerklePrinted
use valk.Merkle.Main.Printed.{main-root_lines}

-- `Atoi` on the argument "8".
abbrev read_eight : String → Option ℤ
read_eight s = some (pos 8)

abbrev args : List String
args = "binary-tree" ∷ "8" ∷ []

main-all_lines_example :
    Sequential.main read_eight args
    ≡ ok (all_lines (pos_part (Sequential.clamp_depth (Sequential.parse_depth read_eight args))))
unfolding Sequential.clamp_depth Sequential.parse_depth
main-all_lines_example = main-all_lines read_eight args (omega arith)

main-root_lines_example :
    MerkleMain.main read_eight args
    ≡ ok (
        MerklePrinted.all_lines
          (pos_part (MerkleMain.clamp_depth (MerkleMain.parse_depth read_eight args))))
unfolding MerkleMain.clamp_depth MerkleMain.parse_depth
main-root_lines_example = main-root_lines read_eight args (omega arith)

abbrev leaf : Tree
leaf = node nil nil

-- A tree with only a left child.
check-nodes_example : check (node leaf nil) ≡ ok (nodes (node leaf nil) % 2 ^ 64)
check-nodes_example = check-nodes (node leaf nil) (λ e. cc)

cal_hash-IsHashed_example : IsHashed (Merkle.make (pos 3)) (Merkle.cal_hash (Merkle.make (pos 3)))
cal_hash-IsHashed_example = cal_hash-IsHashed (Merkle.make (pos 3)) (make-IsValid (pos 3))
