-- ===== src/Merkle/Hashes.antt =====
-- Hashing a tree: what is hashed is hashed below, the hash is the sum of the leaves, and hashing
-- again changes nothing.
use native.Mathlib.Nat.{two-pow-succ}
use valk.Prelude.{
  ℕ, zero, suc, ◌+◌, ◌%◌, ◌^◌, ◌<◌, ◌≡◌, refl, arith, Option, none, some, true, false, ◌&&◌,
}
use valk.Prelude.Int.{ℤ, pos, negsuc, pos_part}
use valk.Merkle.{Tree, leaf, node, get_hash, cal_hash, check, make}

-- The sum of the leaves, with no machine arithmetic.
unfoldable pub leaf_sum : Tree → ℕ
leaf_sum (leaf h v) = v
leaf_sum (node h l r) = leaf_sum l + leaf_sum r

-- The parts below a node that has its hash all have theirs, and each stored hash is the sum of the
-- leaves below it, modulo 2 ^ 64. Leaf values are patterns of 64 bits.
abbrev pub IsHashOf : Tree → Option ℕ → Type 0
IsHashOf t none = Unit
IsHashOf t (some h) = (check t ≡ true) × (h ≡ leaf_sum t % 2 ^ 64)

unfoldable pub IsValid : Tree → Type 0
IsValid (leaf h v) = (v < 2 ^ 64) × IsHashOf (leaf h v) h
IsValid (node h l r) = IsValid l × IsValid r × IsHashOf (node h l r) h

pub cal_hash-leaf_sum : (t : Tree) → leaf_sum (cal_hash t) ≡ leaf_sum t
unfolding cal_hash leaf_sum
cal_hash-leaf_sum (leaf none v) = refl
cal_hash-leaf_sum (leaf (some h) v) = refl
cal_hash-leaf_sum (node none l r) = omega (arith, cal_hash-leaf_sum l, cal_hash-leaf_sum r)
cal_hash-leaf_sum (node (some h) l r) = refl

pub record IsHashed (t u : Tree) : Type 0 where
  pub valid : IsValid u
  pub checked : check u ≡ true
  pub value : get_hash u ≡ leaf_sum t % 2 ^ 64

-- `CalHash` on a valid tree, hashed or not: the result is valid, `Check` accepts it, and `GetHash`
-- returns the sum of the leaves modulo 2 ^ 64.
pub cal_hash-IsHashed : (t : Tree) → IsValid t → IsHashed t (cal_hash t)
unfolding cal_hash IsValid check leaf_sum get_hash
cal_hash-IsHashed (leaf none v) h = ground arith
cal_hash-IsHashed (leaf (some w) v) h = ground arith
cal_hash-IsHashed (node (some w) l r) h = record { valid = h; checked = h.2.0; value = h.2.1 }
cal_hash-IsHashed (node none l r) h =
    let p = cal_hash-IsHashed l h.0 in
    let q = cal_hash-IsHashed r h.1 in
    let both : (check (cal_hash l) && check (cal_hash r)) ≡ true = rw (p.checked, q.checked) in
    record {
      valid = (
        p.valid,
        q.valid,
        (both, omega (arith, p.value, q.value, cal_hash-leaf_sum l, cal_hash-leaf_sum r)),
      );
      checked = both;
      value = omega (arith, p.value, q.value);
    }

-- Hashing again changes nothing, on any tree.
pub cal_hash-cal_hash : (t : Tree) → cal_hash (cal_hash t) ≡ cal_hash t
unfolding cal_hash
cal_hash-cal_hash (leaf none v) = refl
cal_hash-cal_hash (leaf (some h) v) = refl
cal_hash-cal_hash (node none l r) = refl
cal_hash-cal_hash (node (some h) l r) = refl

-- A tree that `make` returns is valid, none of its parts has a hash, and its 2 ^ d leaves are 1.
pub make-IsValid : (d : ℤ) → IsValid (make d)
unfolding make IsValid
make-IsValid (negsuc n) = ground arith
make-IsValid (pos zero) = ground arith
make-IsValid (pos (suc d)) = (make-IsValid (pos d), make-IsValid (pos d), tt)

pub make-leaf_sum : (d : ℤ) → leaf_sum (make d) ≡ 2 ^ pos_part d
unfolding make leaf_sum
make-leaf_sum (negsuc n) = refl
make-leaf_sum (pos zero) = refl
make-leaf_sum (pos (suc d)) = omega (arith, make-leaf_sum (pos d), two-pow-succ d)

-- `make` gives no hash at any depth, so `Check` refuses the tree before `CalHash`.
pub make_unchecked : (d : ℤ) → check (make d) ≡ false
unfolding make check
make_unchecked (negsuc n) = refl
make_unchecked (pos zero) = refl
make_unchecked (pos (suc d)) = refl
