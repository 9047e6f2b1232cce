-- ===== src/Deque/Ring.antt =====
-- The positions of the ring in lib/src/core/deque.valk: two items never share a slot, so a write changes
-- the item of its own position only.
use native.Mathlib.Nat.{mod-lt, mod-add-mod, add-mod_right}
use valk.Prelude.{
  ℕ, ◌+◌, ◌-◌, ◌%◌, ◌≤◌, ◌<◌, ◌≡◌, ◌≢◌, refl, ap, ◌∙◌, inl, inr, List, arith, Bool, true, false,
  length, get_or, set, length-set,
}
use valk.Prelude.Int.{add64}
use valk.Prelude.Slots.{get_or-set_self, get_or-set_ne}
use valk.Deque.{Deque, before64, slot, release}
use valk.Deque.Valid.{IsPower, IsPower-bounds, IsValid, slot-mod, ring_position, item_at}

pub ring_apart : (n h i j : ℕ) → h < n → i < n → j < n → i ≢ j → (h + i) % n ≢ (h + j) % n
ring_apart n h i j lt li lj ne same = elim (ring_position n h i lt (omega arith)) [
  | inl (a, e) ↦ elim (ring_position n h j lt (omega arith)) [
    | inl (b, f) ↦ ne (omega arith)
    | inr (b, f) ↦ absurd (omega arith)
  ]
  | inr (a, e) ↦ elim (ring_position n h j lt (omega arith)) [
    | inl (b, f) ↦ absurd (omega arith)
    | inr (b, f) ↦ ne (omega arith)
  ]
]

-- The slot before the first one.
pub before_first : (n h k : ℕ) → h < n → ((h + (n - 1)) % n + (k + 1)) % n ≡ (h + k) % n
before_first n h k lt =
    let e : h + (n - 1) + (k + 1) ≡ h + k + n = omega arith in
    mod-add-mod (h + (n - 1)) n (k + 1) ∙ ap (λ s. s % n) e ∙ add-mod_right (h + k) n

module _ {A : Type 0} (nought : A) (d : Deque A) (v : IsValid d) (pos : 1 ≤ d.capacity) where
  IsPower-in : IsPower d.capacity
  IsPower-in = elim v.power [ inl none ↦ absurd (omega arith) | inr p ↦ p ]

  pub head_inside : d.head < d.capacity
  head_inside = omega (arith, v.head_in)

  pub slot_at :
      (i : ℕ) → i ≤ d.capacity → slot d.capacity (add64 d.head i) ≡ (d.head + i) % d.capacity
  slot_at i h =
      let (least, most) = IsPower-bounds d.capacity IsPower-in in
      let sum : add64 d.head i ≡ d.head + i = omega (arith, head_inside) in
      ap (slot d.capacity) sum ∙ slot-mod d.capacity (d.head + i) IsPower-in

  pub slot_before :
      (i : ℕ)
      → 1 ≤ i
      → i ≤ d.capacity
      → slot d.capacity (before64 (add64 d.head i)) ≡ (d.head + (i - 1)) % d.capacity
  slot_before i one h =
      let (least, most) = IsPower-bounds d.capacity IsPower-in in
      let sum : before64 (add64 d.head i) ≡ d.head + (i - 1) = omega (arith, head_inside) in
      ap (slot d.capacity) sum ∙ slot-mod d.capacity (d.head + (i - 1)) IsPower-in

  in_storage : (p : ℕ) → p % d.capacity < length d.items
  in_storage p = let less = mod-lt p pos in omega (arith, v.storage)

  pub written_self :
      (i : ℕ) (x : A)
      → get_or (set d.items ((d.head + i) % d.capacity) x) ((d.head + i) % d.capacity) nought ≡ x
  written_self i x = get_or-set_self d.items _ x nought (in_storage (d.head + i))

  pub written_other :
      (i j : ℕ) (x : A)
      → i < d.capacity
      → j < d.capacity
      → i ≢ j
      → get_or (set d.items ((d.head + i) % d.capacity) x) ((d.head + j) % d.capacity) nought
        ≡ item_at nought d j
  written_other i j x li lj ne =
      get_or-set_ne d.items _ _ x nought (ring_apart d.capacity d.head i j head_inside li lj ne)

  pub released_other :
      (refs : Bool) (i j : ℕ)
      → i < d.capacity
      → j < d.capacity
      → i ≢ j
      → get_or
          (release nought refs d.items ((d.head + i) % d.capacity))
          ((d.head + j) % d.capacity)
          nought
        ≡ item_at nought d j
  unfolding release
  released_other true i j li lj ne = written_other i j nought li lj ne
  released_other false i j li lj ne = refl

pub length-release :
    {A : Type 0} (nought : A) (refs : Bool) (items : List A) (at : ℕ)
    → length (release nought refs items at) ≡ length items
unfolding release
length-release nought true items at = length-set items at nought
length-release nought false items at = refl
