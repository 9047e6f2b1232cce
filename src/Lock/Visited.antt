-- ===== src/Lock/Visited.antt =====
-- The last loop of `main` of examples/bench/shared-lock/main.go: the order in which `range` goes
-- through the map does not show in a sum and a maximum.
use Prim.Native.Nat.{max}
use mathlib.Core.List.{foldr}
use mathlib.Core.List.Perm
use mathlib.Core.List.{Perm}
use native.Mathlib.Nat.{ℕ_set}
use valk.Prelude.{
  ℕ, ◌+◌, ◌%◌, ◌^◌, ◌≤◌, ◌<◌, ◌≡◌, refl, ◌∙◌, inl, inr, List, [], ◌∷◌, arith, map, ltb, Bool-cases,
}
use valk.Prelude.Bytes.{same_bytes_iff}
use valk.Prelude.Int.{add64}
use valk.Lock.{Items, value_at}
use valk.Lock.Counted.{sum_values, IsDistinct}
use valk.Lock.Main.{tally}

abbrev sum_all : List ℕ → ℕ
sum_all = foldr ◌+◌ 0

abbrev max_all : List ℕ → ℕ
max_all = foldr max 0

abbrev pub values_of : Items → List ℕ
values_of = map (λ item. item.1)

pair-eq : {a b c d : ℕ} → a ≡ b → c ≡ d → ◌≡◌ {A = ℕ × ℕ} (a, c) (b, d)
pair-eq e f = cc

tally-eq :
    (total most : ℕ) (values : List ℕ)
    → total < 2 ^ 64
    → tally total most values ≡ ((total + sum_all values) % 2 ^ 64, max most (max_all values))
unfolding tally
tally-eq total most [] h = pair-eq (omega arith) (omega arith)
tally-eq total most (value ∷ values) h = elim (Bool-cases (ltb most value)) [
  | inl less ↦
      let m : max value (max_all values) ≡ max most (max value (max_all values)) = ground arith in
      rw (less) (tally-eq (add64 total value) value values (omega arith) ∙ pair-eq (omega arith) m)
  | inr more ↦
      let m : max most (max_all values) ≡ max most (max value (max_all values)) = ground arith in
      rw (more) (tally-eq (add64 total value) most values (omega arith) ∙ pair-eq (omega arith) m)
]

values-perm :
    (xs ys : Items)
    → Perm xs ys
    → (sum_all (values_of xs) ≡ sum_all (values_of ys))
      × (max_all (values_of xs) ≡ max_all (values_of ys))
values-perm xs ys p =
    let q = Perm.map (λ (item : List ℕ × ℕ). item.1) p in
    (
      Perm.foldr-eq ℕ_set ◌+◌ (λ a b x. omega arith) q 0,
      Perm.foldr-eq ℕ_set max (λ a b x. omega arith) q 0,
    )

sum_all-values : (items : Items) → sum_all (values_of items) ≡ sum_values items
unfolding sum_values
sum_all-values [] = refl
sum_all-values ((k, v) ∷ items) = omega (arith, sum_all-values items)

value_at-le-max : (k : List ℕ) (items : Items) → value_at k items ≤ max_all (values_of items)
unfolding value_at
value_at-le-max k [] = omega arith
value_at-le-max k ((j, v) ∷ items) = ground (arith, value_at-le-max k items)

max-value_at :
    (items : Items)
    → IsDistinct items
    → (k : List ℕ) × (value_at k items ≡ max_all (values_of items))
unfolding value_at IsDistinct
max-value_at [] d = ([], refl)
max-value_at ((j, v) ∷ items) d =
    let (k, e) = max-value_at items d.1 in
    elim (Bool-cases (ltb v (max_all (values_of items)))) [
      | inl less ↦ (k, ground (arith, e, same_bytes_iff j k, d.0))
      | inr more ↦ (j, ground (arith, same_bytes_iff j j))
    ]

-- The tally of a map in any order: the sum of its values, and the greatest.
pub tally-visit :
    (visit : Items → Items) (items : Items)
    → Perm (visit items) items
    → IsDistinct items
    → sum_values items < 2 ^ 64
    → (most : ℕ) × (tally 0 0 (values_of (visit items)) ≡ (sum_values items, most))
      × ((k : List ℕ) → value_at k items ≤ most)
      × ((k : List ℕ) × (value_at k items ≡ most))
tally-visit visit items p d small =
    let (sums, tops) = values-perm (visit items) items p in
    let (k, e) = max-value_at items d in
    (
      max_all (values_of items),
      tally-eq 0 0 (values_of (visit items)) (omega arith)
          ∙ pair-eq (omega (arith, sums, sum_all-values items)) (omega (arith, tops)),
      λ k. value_at-le-max k items,
      (k, e),
    )
