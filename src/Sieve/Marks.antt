-- ===== src/Sieve/Marks.antt =====
-- The inner loop marks the multiples of `i` from `j` on, and no others.
use native.Mathlib.Nat.{mod-eq-sub-mod, mod-eq_of_lt}
use valk.Prelude.{
  ◌*◌, ◌^◌, Result, ok, ltb, Bool-cases, inl, inr, ℕ, zero, suc, ◌+◌, ◌-◌, ◌%◌, ◌≤◌, ◌<◌, ◌≡◌, refl,
  ◌∙◌, List, [], ◌∷◌, Bool, true, false, ◌&&◌, ◌||◌, arith, leb, ◌==◌, if◌then◌else◌, length, set,
  get_or, length-set,
}
use valk.Prelude.Int.{pos, signed64}
use valk.Sieve.{mark, twice}

pub get_or-set :
    (xs : List Bool) (j k : ℕ) (v d : Bool)
    → j < length xs
    → get_or (set xs j v) k d ≡ (if j == k then v else get_or xs k d)
get_or-set [] j k v d h = elim h [ ]
get_or-set (x ∷ xs) zero zero v d h = refl
get_or-set (x ∷ xs) zero (suc k) v d h = ground arith
get_or-set (x ∷ xs) (suc j) zero v d h = ground arith
get_or-set (x ∷ xs) (suc j) (suc k) v d h = get_or-set xs j k v d (omega arith) ∙ ground arith

-- `k` is one of j, j + i, j + 2 * i, ...
abbrev pub hits : ℕ → ℕ → ℕ → Bool
hits i j k = leb j k && ((k - j) % i == 0)

hits_step : (i j k : ℕ) → 0 < i → hits i j k ≡ ((j == k) || hits i (j + i) k)
hits_step i j k pos_i =
    let far : i ≤ k - j → (k - j) % i ≡ (k - j - i) % i = mod-eq-sub-mod in
    let near : k - j < i → (k - j) % i ≡ k - j = mod-eq_of_lt in ground (arith, far, near)

-- Up to a length of 2 ^ 62 the index does not wrap.
step_fits : (i j n : ℕ) → n ≤ 2 ^ 62 → i < n → j < n → signed64 ((j + i) % 2 ^ 64) ≡ pos (j + i)
step_fits i j n small hi hj = ground arith

pub twice_fits : (i n : ℕ) → n ≤ 2 ^ 62 → i < n → twice i ≡ pos (2 * i)
twice_fits i n small hi = ground arith

-- The flags with the multiples marked.
abbrev pub Marks : Result (List Bool) → (i j n : ℕ) → List Bool → Type 0
Marks r i j n flags =
    (out : List Bool) × (r ≡ ok out)
    × (length out ≡ n)
    × ((k : ℕ) → k < n → get_or out k false ≡ (get_or flags k false || hits i j k))

pub mark-Marks :
    (fuel i j n : ℕ) (flags : List Bool)
    → 0 < i
    → i < n
    → n ≤ 2 ^ 62
    → length flags ≡ n
    → n < j + fuel
    → 1 ≤ fuel
    → Marks (mark fuel i (pos j) n flags) i j n flags
unfolding mark
mark-Marks zero i j n flags pos_i hi small len enough some = absurd (omega arith)
mark-Marks (suc fuel) i j n flags pos_i hi small len enough some = elim (Bool-cases (ltb j n)) [
  | inr past ↦ (flags, rw (mark, past) refl, len, λ k h. ground arith)
  | inl inside ↦
      let fits = step_fits i j n small hi (ground arith) in
      let n' = length-set flags j true in
      let (out, run, length-out, marked) =
        mark-Marks fuel i (j + i) n (set flags j true) pos_i hi small (omega arith) (omega arith)
          (ground arith) in
      (
        out,
        rw (mark, inside, fits) run,
        length-out,
        λ k h. ground (arith, marked k h, get_or-set flags j k true false, hits_step i j k),
      )
]
