-- ===== src/Tree/Count.antt =====
-- The two ways to check a tree against the number of its nodes.
use valk.Prelude.{ℕ, zero, suc, ◌+◌, ◌-◌, ◌%◌, ◌^◌, ◌≡◌, refl, ap, ◌≢◌, arith, ok, panic}
use valk.Prelude.Int.{pos, negsuc, pos_part, ℤ}
use valk.Prelude.Powers.{two-pow_double}
use valk.Tree.{
  Tree, nil, node, bottom_up_tree, build_tree, make_tree, item_check, check_child, check,
}

-- The number of nodes, with no machine arithmetic.
unfoldable pub nodes : Tree → ℕ
nodes nil = 0
nodes (node l r) = 1 + nodes l + nodes r

-- Each node has no child or two.
unfoldable pub IsFull : Tree → Type 0
IsFull nil = ⊥
IsFull (node nil nil) = Unit
IsFull (node nil (node a b)) = ⊥
IsFull (node (node a b) nil) = ⊥
IsFull (node (node a b) (node c d)) = IsFull (node a b) × IsFull (node c d)

pub ne_nil_of_IsFull : (t : Tree) → IsFull t → t ≢ nil
unfolding IsFull
ne_nil_of_IsFull nil h = absurd h
ne_nil_of_IsFull (node l r) h = λ e. cc

check_child-nodes : (t : Tree) → check_child t ≡ nodes t % 2 ^ 64
unfolding check_child nodes
check_child-nodes nil = refl
check_child-nodes (node l r) = omega (arith, check_child-nodes l, check_child-nodes r)

-- `check` of gc never panics on a tree that is not nil, whatever its shape: it returns the number of
-- nodes modulo 2 ^ 64.
pub check-nodes : (t : Tree) → t ≢ nil → check t ≡ ok (nodes t % 2 ^ 64)
unfolding check nodes
check-nodes nil h = absurd (h refl)
check-nodes (node l r) h = ap ok (omega (arith, check_child-nodes l, check_child-nodes r))

-- `itemCheck` looks at the left child only before it follows both, so it needs a full tree: there it
-- does not panic, and it returns the number of nodes modulo 2 ^ 64.
pub item_check-nodes : (t : Tree) → IsFull t → item_check t ≡ ok (nodes t % 2 ^ 64)
unfolding item_check nodes IsFull
item_check-nodes nil h = absurd h
item_check-nodes (node nil nil) h = refl
item_check-nodes (node nil (node a b)) h = absurd h
item_check-nodes (node (node a b) nil) h = absurd h
item_check-nodes (node (node a b) (node c d)) h =
    ground (arith, item_check-nodes (node a b) h.0, item_check-nodes (node c d) h.1)

-- A tree with a left child and no right one makes `itemCheck` panic, where `check` counts.
pub item_check_panics : (a b : Tree) → IsFull (node a b) → item_check (node (node a b) nil) ≡ panic
unfolding item_check
item_check_panics a b h = ground (arith, item_check-nodes (node a b) h)

pub build_tree-bottom_up : (d : ℤ) → build_tree d ≡ bottom_up_tree d
unfolding build_tree bottom_up_tree
build_tree-bottom_up (negsuc n) = refl
build_tree-bottom_up (pos zero) = refl
build_tree-bottom_up (pos (suc d)) = rw (build_tree-bottom_up (pos d))

-- From a depth of 0 or more `makeTree` ends, with the tree that `bottomUpTree` builds.
pub make_tree-bottom_up : (d : ℕ) → make_tree (pos d) ≡ ok (bottom_up_tree (pos d))
unfolding make_tree bottom_up_tree
make_tree-bottom_up zero = refl
make_tree-bottom_up (suc d) = rw (make_tree-bottom_up d)

-- The tree of depth `d` is full and has 2 ^ (d + 1) - 1 nodes; a negative depth gives one node.
pub record IsPerfect (d : ℕ) (t : Tree) : Type 0 where
  pub full : IsFull t
  pub size : nodes t + 1 ≡ 2 ^ (d + 1)

IsPerfect-node : (d : ℕ) (t : Tree) → IsPerfect d t → IsPerfect (suc d) (node t t)
unfolding nodes IsFull
IsPerfect-node d nil p = absurd p.full
IsPerfect-node d (node a b) p = record {
  full = (p.full, p.full);
  size = omega (arith, two-pow_double d);
}

pub bottom_up_tree-IsPerfect : (d : ℤ) → IsPerfect (pos_part d) (bottom_up_tree d)
unfolding bottom_up_tree IsFull nodes
bottom_up_tree-IsPerfect (negsuc n) = record { full = tt; size = refl }
bottom_up_tree-IsPerfect (pos zero) = record { full = tt; size = refl }
bottom_up_tree-IsPerfect (pos (suc d)) = IsPerfect-node d _ (bottom_up_tree-IsPerfect (pos d))

-- All the builders and checkers of the benchmarks agree: at depth `d` each check returns the number of
-- nodes of the perfect tree, 2 ^ (d + 1) - 1, modulo 2 ^ 64.
pub item_check-bottom_up_tree :
    (d : ℤ) → item_check (bottom_up_tree d) ≡ ok ((2 ^ (pos_part d + 1) - 1) % 2 ^ 64)
item_check-bottom_up_tree d =
    let t = bottom_up_tree-IsPerfect d in ground (arith, item_check-nodes _ t.full, t.size)
