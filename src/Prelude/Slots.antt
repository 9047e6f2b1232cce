-- ===== src/Prelude/Slots.antt =====
-- Reads of lists that are put together, and lists by the values at their positions.
use valk.Prelude.{
  ℕ, zero, suc, ◌+◌, ◌-◌, ◌≤◌, ◌<◌, ◌≡◌, refl, sym, ap, ◌∙◌, ◌≢◌, none, some, List, [], ◌∷◌, ◌++◌,
  arith, length, get_elem?, get_or, set, take, drop,
}

module _ {A : Type 0} where
  pub get_or-append_left :
      (xs ys : List A) (i : ℕ) (d : A) → i < length xs → get_or (xs ++ ys) i d ≡ get_or xs i d
  get_or-append_left [] ys i d h = absurd (omega arith)
  get_or-append_left (x ∷ xs) ys zero d h = refl
  get_or-append_left (x ∷ xs) ys (suc i) d h = get_or-append_left xs ys i d (omega arith)

  pub get_or-append_right :
      (xs ys : List A) (i : ℕ) (d : A)
      → length xs ≤ i
      → get_or (xs ++ ys) i d ≡ get_or ys (i - length xs) d
  get_or-append_right [] ys i d h = ap (λ k. get_or ys k d) (omega arith)
  get_or-append_right (x ∷ xs) ys zero d h = absurd (omega arith)
  get_or-append_right (x ∷ xs) ys (suc i) d h =
      get_or-append_right xs ys i d (omega arith) ∙ ap (λ k. get_or ys k d) (omega arith)

  pub get_or-take :
      (n : ℕ) (xs : List A) (i : ℕ) (d : A) → i < n → get_or (take n xs) i d ≡ get_or xs i d
  get_or-take zero xs i d h = absurd (omega arith)
  get_or-take (suc n) [] i d h = refl
  get_or-take (suc n) (x ∷ xs) zero d h = refl
  get_or-take (suc n) (x ∷ xs) (suc i) d h = get_or-take n xs i d (omega arith)

  pub get_or-drop :
      (n : ℕ) (xs : List A) (i : ℕ) (d : A) → get_or (drop n xs) i d ≡ get_or xs (n + i) d
  get_or-drop zero xs i d = ap (λ k. get_or xs k d) (omega arith)
  get_or-drop (suc n) [] i d = refl
  get_or-drop (suc n) (x ∷ xs) i d =
      let e : suc n + i ≡ suc (n + i) = omega arith in rw (e) (get_or-drop n xs i d)

  pub get_or-set_self :
      (xs : List A) (i : ℕ) (v d : A) → i < length xs → get_or (set xs i v) i d ≡ v
  get_or-set_self [] i v d h = absurd (omega arith)
  get_or-set_self (x ∷ xs) zero v d h = refl
  get_or-set_self (x ∷ xs) (suc i) v d h = get_or-set_self xs i v d (omega arith)

  pub get_or-set_ne :
      (xs : List A) (i j : ℕ) (v d : A) → i ≢ j → get_or (set xs i v) j d ≡ get_or xs j d
  get_or-set_ne [] i j v d h = refl
  get_or-set_ne (x ∷ xs) zero zero v d h = absurd (h refl)
  get_or-set_ne (x ∷ xs) zero (suc j) v d h = refl
  get_or-set_ne (x ∷ xs) (suc i) zero v d h = refl
  get_or-set_ne (x ∷ xs) (suc i) (suc j) v d h = get_or-set_ne xs i j v d (λ e. h (ap suc e))

-- The values of `f` at `n` positions from `i` on.
module _ {A : Type 0} where
  unfoldable pub values : (ℕ → A) → (i n : ℕ) → List A
  values f i zero = []
  values f i (suc n) = f i ∷ values f (i + 1) n

module _ {A : Type 0} where
  pub length-values : (f : ℕ → A) (i n : ℕ) → length (values f i n) ≡ n
  unfolding values
  length-values f i zero = refl
  length-values f i (suc n) = ap suc (length-values f (i + 1) n)

  -- The same values, at positions that are shifted by a number.
  pub values-shift :
      (f g : ℕ → A) (i j n : ℕ)
      → ((k : ℕ) → k < n → f (i + k) ≡ g (j + k))
      → values f i n ≡ values g j n
  unfolding values
  values-shift f g i j zero h = refl
  values-shift f g i j (suc n) h =
      let z : i + 0 ≡ i = omega arith in
      let z' : j + 0 ≡ j = omega arith in
      let head : f i ≡ g j = ap f (sym z) ∙ h 0 (omega arith) ∙ ap g z' in
      let rest =
        values-shift f g (i + 1) (j + 1) n
          (λ k lt. ap f (omega arith) ∙ h (suc k) (omega arith) ∙ ap g (omega arith)) in
      cc

  pub values-same :
      (f g : ℕ → A) (n : ℕ) → ((k : ℕ) → k < n → f k ≡ g k) → values f 0 n ≡ values g 0 n
  values-same f g n h =
      values-shift f g 0 0 n (λ k l. ap f (omega arith) ∙ h k l ∙ ap g (omega arith))

  pub values-next :
      (f g : ℕ → A) (n : ℕ) → ((k : ℕ) → k < n → f k ≡ g (1 + k)) → values f 0 n ≡ values g 1 n
  values-next f g n h = values-shift f g 0 1 n (λ k l. ap f (omega arith) ∙ h k l)

  pub values-snoc : (f : ℕ → A) (i n : ℕ) → values f i (suc n) ≡ values f i n ++ f (i + n) ∷ []
  unfolding values
  values-snoc f i zero = let z : i + 0 ≡ i = omega arith in rw (z) refl
  values-snoc f i (suc n) =
      let e : i + suc n ≡ i + 1 + n = omega arith in
      rw (e) (ap (λ l. f i ∷ l) (values-snoc f (i + 1) n))

  pub get_elem?-values :
      (f : ℕ → A) (i n k : ℕ) → k < n → get_elem? (values f i n) k ≡ some (f (i + k))
  unfolding values
  get_elem?-values f i zero k h = absurd (omega arith)
  get_elem?-values f i (suc n) zero h = ap (λ j. some (f j)) (omega arith)
  get_elem?-values f i (suc n) (suc k) h =
      get_elem?-values f (i + 1) n k (omega arith) ∙ ap (λ j. some (f j)) (omega arith)

  pub get_elem?-values_past : (f : ℕ → A) (i n k : ℕ) → n ≤ k → get_elem? (values f i n) k ≡ none
  unfolding values
  get_elem?-values_past f i zero k h = refl
  get_elem?-values_past f i (suc n) zero h = absurd (omega arith)
  get_elem?-values_past f i (suc n) (suc k) h = get_elem?-values_past f (i + 1) n k (omega arith)

  pub take-values : (f : ℕ → A) (i n k : ℕ) → k ≤ n → take k (values f i n) ≡ values f i k
  unfolding values
  take-values f i n zero h = refl
  take-values f i zero (suc k) h = absurd (omega arith)
  take-values f i (suc n) (suc k) h = ap (λ l. f i ∷ l) (take-values f (i + 1) n k (omega arith))

  pub drop-values : (f : ℕ → A) (i n : ℕ) → drop 1 (values f i n) ≡ values f (i + 1) (n - 1)
  unfolding values
  drop-values f i zero = refl
  drop-values f i (suc n) = ap (values f (i + 1)) (omega arith)

  -- One value that differs is a write.
  pub values-set :
      (f g : ℕ → A) (i n k : ℕ)
      → k < n
      → ((j : ℕ) → j < n → j ≢ k → g (i + j) ≡ f (i + j))
      → values g i n ≡ set (values f i n) k (g (i + k))
  unfolding values
  values-set f g i zero k lt h = absurd (omega arith)
  values-set f g i (suc n) zero lt h =
      let z : i + 0 ≡ i = omega arith in
      let rest = values-shift g f (i + 1) (i + 1) n (λ j l.
        ap g (omega arith)
        ∙ h (suc j) (omega arith) (λ e. absurd (omega arith))
        ∙ ap f (omega arith)) in
      rw (z) (ap (λ l. g i ∷ l) rest)
  values-set f g i (suc n) (suc k) lt h =
      let z : i + 0 ≡ i = omega arith in
      let e : i + suc k ≡ i + 1 + k = omega arith in
      let head : g i ≡ f i =
        ap g (sym z) ∙ h 0 (omega arith) (λ e. absurd (omega arith)) ∙ ap f z in
      let rest = values-set f g (i + 1) n k (omega arith) (λ j l ne.
        ap g (omega arith)
        ∙ h (suc j) (omega arith) (λ d. ne (omega arith))
        ∙ ap f (omega arith)) in
      rw (e) cc
