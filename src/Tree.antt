-- ===== src/Tree.antt =====
-- Binary trees: examples/bench/binary-tree/main.go, examples/bench/binary-tree-multi/main.go and the
-- trees of examples/bench/gc/main.go and examples/bench/gc-multi/main.go. No program changes a node
-- after it is built or compares two pointers, so a `*Node` is a value here: `nil` is the nil
-- pointer, `node l r` a pointer to a node with these fields.
pub mod Count
pub mod Parallel
pub mod Sequential
use valk.Prelude.{ℕ, zero, suc, Result, ok, panic, ◌>>=◌}
use valk.Prelude.Int.{ℤ, pos, negsuc, add64}

pub data Tree : Type 0 where
  nil : Tree
  node : (left right : Tree) → Tree

-- `bottomUpTree` of binary-tree; `buildTree` of gc and gc-multi has the same body, with the zero
-- value of the fields left out.
unfoldable pub bottom_up_tree : ℤ → Tree
bottom_up_tree (negsuc n) = node nil nil
bottom_up_tree (pos zero) = node nil nil
bottom_up_tree (pos (suc d)) = node (bottom_up_tree (pos d)) (bottom_up_tree (pos d))

unfoldable pub build_tree : ℤ → Tree
build_tree (negsuc n) = node nil nil
build_tree (pos zero) = node nil nil
build_tree (pos (suc d)) = node (build_tree (pos d)) (build_tree (pos d))

-- `makeTree` of binary-tree-multi stops at 0 only: from a negative depth the calls do not end, and
-- the program dies of a stack overflow.
unfoldable pub make_tree : ℤ → Result Tree
make_tree (negsuc n) = panic
make_tree (pos zero) = ok (node nil nil)
make_tree (pos (suc d)) = do l ← make_tree (pos d); r ← make_tree (pos d); ok (node l r)

-- `itemCheck`, and `check` of binary-tree-multi: a nil receiver faults at `n.left`, and the sum of
-- Go's `int` wraps.
unfoldable pub item_check : Tree → Result ℕ
item_check nil = panic
item_check (node nil right) = ok 1
item_check (node (node a b) right) = do
  l ← item_check (node a b)
  r ← item_check right
  ok (add64 (add64 1 l) r)

-- `t.check()` behind its test `t != nil`, as the body of `check` in gc calls it on each child.
unfoldable pub check_child : Tree → ℕ
check_child nil = 0
check_child (node left right) = add64 (add64 1 (check_child left)) (check_child right)

-- `check` of gc: a nil receiver faults at `t.left`.
unfoldable pub check : Tree → Result ℕ
unfolding check_child
check nil = panic
check (node left right) = ok (add64 (add64 1 (check_child left)) (check_child right))
