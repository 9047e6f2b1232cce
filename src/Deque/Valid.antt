-- ===== src/Deque/Valid.antt =====
-- What holds of a deque between calls of lib/src/core/deque.valk, and what its masks are then.
use native.Mathlib.Nat.{mod-eq_of_lt, mod-eq-sub-mod, pow-succ'}
use valk.Prelude.{
  ℕ, zero, suc, ◌+◌, ◌-◌, ◌*◌, ◌%◌, ◌^◌, ◌≤◌, ◌<◌, ◌≡◌, refl, ap, ◌∙◌, ◌⊎◌, inl, inr, List, arith,
  ok, length, get_or, true, false, ltb, leb, Bool-cases,
}
use valk.Prelude.Masks.{bit_and-mask}
use valk.Prelude.Powers.{two-pow_pos, two-pow_mono}
use valk.Prelude.Slots.{values}
use valk.Deque.{Deque, empty, before64, slot, size_loop}

-- A power of two that is a `uint`.
abbrev pub IsPower : ℕ → Type 0
IsPower n = (k : ℕ) × (k ≤ 63) × (n ≡ 2 ^ k)

pub record IsValid {A : Type 0} (d : Deque A) : Type 0 where
  pub storage : length d.items ≡ d.capacity
  pub power : (d.capacity ≡ 0) ⊎ IsPower d.capacity
  pub head_in : d.head ≤ d.capacity - 1
  pub count_in : d.count ≤ d.capacity

pub empty-IsValid : {A : Type 0} (nought : A) → IsValid (empty nought)
unfolding empty
empty-IsValid nought = record {
  storage = refl;
  power = inl refl;
  head_in = omega arith;
  count_in = omega arith;
}

pub IsPower-bounds : (n : ℕ) → IsPower n → (1 ≤ n) × (n ≤ 2 ^ 63)
IsPower-bounds n (k, h, e) = omega (arith, two-pow_pos k, two-pow_mono {a = k} {b = 63} h)

-- A position on the ring: round the end once, or not at all.
pub slot-mod : (n at : ℕ) → IsPower n → slot n at ≡ at % n
unfolding slot
slot-mod n at (k, h, e) =
    let (least, most) = IsPower-bounds n (k, h, e) in
    let m : before64 n ≡ 2 ^ k - 1 = omega arith in rw (m, e) (bit_and-mask at k)

pub ring_position :
    (n h i : ℕ)
    → h < n
    → i ≤ n
    → ((h + i < n) × ((h + i) % n ≡ h + i)) ⊎ ((n ≤ h + i) × ((h + i) % n ≡ h + i - n))
ring_position n h i lt le = elim (Bool-cases (ltb (h + i) n)) [
  | inl inside ↦ inl (ground arith, mod-eq_of_lt (ground arith))
  | inr round ↦ inr (
    ground arith,
    mod-eq-sub-mod {n = h + i} {m = n} (ground arith) ∙ mod-eq_of_lt (ground arith),
  )
]

-- The items from front to back.
abbrev pub item_at : {A : Type 0} → A → Deque A → ℕ → A
item_at nought d i = get_or d.items ((d.head + i) % d.capacity) nought

abbrev pub contents : {A : Type 0} → A → Deque A → List A
contents nought d = values (item_at nought d) 0 d.count

-- Every slot behind the items is zero.
abbrev pub IsClean : {A : Type 0} → A → Deque A → Type 0
IsClean nought d = (i : ℕ) → d.count ≤ i → i < d.capacity → item_at nought d i ≡ nought

size_loop_more :
    (fuel minimum size : ℕ)
    → ltb size minimum ≡ true
    → leb (size * 2 % 2 ^ 64) size ≡ false
    → size_loop (suc fuel) minimum size ≡ size_loop fuel minimum (size * 2 % 2 ^ 64)
unfolding size_loop
size_loop_more fuel minimum size more grows = rw (size_loop, more, grows) refl

-- The doubling ends at the first power of two that is large enough.
pub size_loop-IsPower :
    (fuel minimum k : ℕ)
    → k ≤ 63
    → 64 ≤ fuel + k
    → minimum ≤ 2 ^ 63
    → (j : ℕ) × (j ≤ 63)
      × (k ≤ j)
      × (minimum ≤ 2 ^ j)
      × (size_loop fuel minimum (2 ^ k) ≡ ok (2 ^ j))
unfolding size_loop
size_loop-IsPower zero minimum k h enough small = absurd (omega arith)
size_loop-IsPower (suc fuel) minimum k h enough small = elim (Bool-cases (ltb (2 ^ k) minimum)) [
  | inr end ↦ (k, h, omega arith, ground arith, rw (size_loop, end) refl)
  | inl more ↦ elim (Bool-cases (leb k 62)) [
    | inl room ↦
        let twice : 2 ^ k * 2 ≡ 2 ^ suc k = omega (arith, pow-succ' 2 k) in
        let most = two-pow_mono {a = suc k} {b = 63} (ground arith) in
        let pos = two-pow_pos k in
        let next : 2 ^ k * 2 % 2 ^ 64 ≡ 2 ^ suc k = omega arith in
        let grows : leb (2 ^ k * 2 % 2 ^ 64) (2 ^ k) ≡ false = rw (next) (ground arith) in
        let (j, a, b, c, e) =
          size_loop-IsPower fuel minimum (suc k) (ground arith) (omega arith) small in
        (
          j,
          a,
          omega arith,
          c,
          size_loop_more fuel minimum (2 ^ k) more grows ∙ ap (size_loop fuel minimum) next ∙ e,
        )
    | inr top ↦
        let k63 : k ≡ 63 = ground arith in
        let full : 2 ^ k ≡ 2 ^ 63 = ap (λ n. 2 ^ n) k63 in absurd (ground arith)
  ]
]
