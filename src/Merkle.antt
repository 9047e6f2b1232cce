-- ===== src/Merkle.antt =====
-- examples/bench/merkletrees/main.go. Each node is owned by one parent, so `CalHash`, which writes
-- the hash pointers in place, returns the new tree. The pointer `&l.value` of a leaf is read as the
-- value behind it: no code changes a leaf's value. An int64 is its bit pattern.
pub mod Hashes
pub mod Main
use valk.Prelude.{ℕ, zero, suc, ◌-◌, ◌^◌, Option, none, some, Bool, true, false, ◌&&◌}
use valk.Prelude.Int.{ℤ, pos, negsuc, add64}

-- `INode`: the two implementations, each with the `hash` of its embedded `BaseNode`.
pub data Tree : Type 0 where
  leaf : (hash : Option ℕ) (value : ℕ) → Tree
  node : (hash : Option ℕ) (left right : Tree) → Tree

abbrev pub hash : Tree → Option ℕ
hash (leaf h v) = h
hash (node h l r) = h

unfoldable pub has_hash : Tree → Bool
has_hash t = elim (hash t) [ none ↦ false | some h ↦ true ]

-- -1 where there is no hash
unfoldable pub get_hash : Tree → ℕ
get_hash t = elim (hash t) [ none ↦ 2 ^ 64 - 1 | some h ↦ h ]

unfoldable pub cal_hash : Tree → Tree
unfolding get_hash
cal_hash (leaf none value) = leaf (some value) value
cal_hash (leaf (some h) value) = leaf (some h) value
cal_hash (node none left right) =
    let l = cal_hash left in
    let r = cal_hash right in node (some (add64 (get_hash l) (get_hash r))) l r
cal_hash (node (some h) left right) = node (some h) left right

unfoldable pub check : Tree → Bool
unfolding has_hash
check (leaf h value) = has_hash (leaf h value)
check (node none left right) = false
check (node (some h) left right) = check left && check right

-- `make`
unfoldable pub make : ℤ → Tree
make (negsuc n) = leaf none 1
make (pos zero) = leaf none 1
make (pos (suc d)) = node none (make (pos d)) (make (pos d))
