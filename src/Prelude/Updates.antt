-- ===== src/Prelude/Updates.antt =====
-- Lists of the goroutines' states: sums over them, and what a write of one of them changes.
use valk.Prelude.{
  ℕ, zero, suc, ◌+◌, ◌≤◌, ◌≡◌, refl, ◌⊎◌, inl, inr, none, some, List, [], ◌∷◌, arith, length, map,
  get_elem?, set,
}

module _ {A : Type 0} where
  unfoldable pub sum_of : (A → ℕ) → List A → ℕ
  sum_of f [] = 0
  sum_of f (w ∷ ws) = f w + sum_of f ws

module _ {A : Type 0} where
  pub sum_of-set :
      (f : A → ℕ) (ws : List A) (t : ℕ) (w : A) (w' : A)
      → get_elem? ws t ≡ some w
      → sum_of f (set ws t w') + f w ≡ sum_of f ws + f w'
  unfolding sum_of
  sum_of-set f [] t w w' h = cc
  sum_of-set f (v ∷ ws) zero w w' h = let e : v ≡ w = cc in rw (e) (omega arith)
  sum_of-set f (v ∷ ws) (suc t) w w' h = omega (arith, sum_of-set f ws t w w' h)

module _ {A : Type 0} where
  pub sum_of-ge :
      (f : A → ℕ) (ws : List A) (t : ℕ) (w : A) → get_elem? ws t ≡ some w → f w ≤ sum_of f ws
  unfolding sum_of
  sum_of-ge f [] t w h = cc
  sum_of-ge f (v ∷ ws) zero w h = let e : v ≡ w = cc in rw (e) (omega arith)
  sum_of-ge f (v ∷ ws) (suc t) w h = omega (arith, sum_of-ge f ws t w h)

module _ {A : Type 0} where
  pub map-set_same :
      (f : A → ℕ) (ws : List A) (t : ℕ) (w : A) (w' : A)
      → get_elem? ws t ≡ some w
      → f w' ≡ f w
      → map f (set ws t w') ≡ map f ws
  map-set_same f [] t w w' h e = refl
  map-set_same f (v ∷ ws) zero w w' h e = let d : v ≡ w = cc in rw (d, e) refl
  map-set_same f (v ∷ ws) (suc t) w w' h e = rw (map-set_same f ws t w w' h e) refl

module _ {A : Type 0} where
  pub get_elem?-set_cases :
      (ws : List A) (t : ℕ) (w' : A) (u : ℕ) (v : A)
      → get_elem? (set ws t w') u ≡ some v
      → (w' ≡ v) ⊎ (get_elem? ws u ≡ some v)
  get_elem?-set_cases [] t w' u v e = inr e
  get_elem?-set_cases (x ∷ ws) zero w' zero v e = inl cc
  get_elem?-set_cases (x ∷ ws) zero w' (suc u) v e = inr e
  get_elem?-set_cases (x ∷ ws) (suc t) w' zero v e = inr e
  get_elem?-set_cases (x ∷ ws) (suc t) w' (suc u) v e = get_elem?-set_cases ws t w' u v e

module _ {A : Type 0} where
  pub get_elem?-none_ge : (xs : List A) (i : ℕ) → get_elem? xs i ≡ none → length xs ≤ i
  get_elem?-none_ge [] i h = omega arith
  get_elem?-none_ge (x ∷ xs) zero h = cc
  get_elem?-none_ge (x ∷ xs) (suc i) h = omega (arith, get_elem?-none_ge xs i h)
