-- ===== src/Prelude/Threads.antt =====
-- Goroutines that share one state: each is a state machine of its own, and a turn of the scheduler is
-- the number of the goroutine that tries a step.
use mathlib.Core.Path.{subst}
use native.Mathlib.Decide.{ℕ_discrete}
use valk.Prelude.{
  ℕ, zero, suc, ◌+◌, ◌≤◌, ◌≡◌, refl, ap, ◌≢◌, ◌⊎◌, inl, inr, none, some, List, [], ◌∷◌, Bool, true,
  false, ◌&&◌, arith, Result, ok, panic, map, get_elem?, set, Bool-cases, Option-cases,
}
use valk.Prelude.Turns.{Keeps, Advances, Rule}
use valk.Prelude.Updates.{sum_of, sum_of-set, sum_of-ge}

pub record Threads (C W : Type 0) : Type 0 where
  pub shared : C
  pub workers : List W

-- What a goroutine's step is: to new states, a wait, the end of its code, or a panic.
pub data Move (C W : Type 0) : Type 0 where
  moved : C → W → Move C W
  blocked : Move C W
  finished : Move C W
  panicked : Move C W

module _ {C W : Type 0} where
  unfoldable pub apply_move : Threads C W → ℕ → Move C W → Result (Threads C W)
  apply_move s t (moved c w) = ok (record { shared = c; workers = set s.workers t w })
  apply_move s t blocked = ok s
  apply_move s t finished = ok s
  apply_move s t panicked = panic

-- One that waits or has finished stays where it is; there are no goroutines but `workers`.
module _ {C W : Type 0} (advance : C → W → Move C W) where
  unfoldable pub try_thread : Threads C W → ℕ → Result (Threads C W)
  unfolding apply_move
  try_thread s t = elim (get_elem? s.workers t) [
    | none ↦ ok s
    | some w ↦ apply_move s t (advance s.shared w)
  ]

module _ {W : Type 0} (is_done : W → Bool) where
  unfoldable pub all_done : List W → Bool
  all_done [] = true
  all_done (w ∷ ws) = is_done w && all_done ws

module _ {W : Type 0} (is_done : W → Bool) where
  pub find_undone :
      (ws : List W)
      → all_done is_done ws ≡ false
      → (t : ℕ) × (w : W) × (get_elem? ws t ≡ some w) × (is_done w ≡ false)
  unfolding all_done
  find_undone [] h = cc
  find_undone (w ∷ ws) h = elim (Bool-cases (is_done w)) [
    | inl d ↦ let (t, v, e, n) = find_undone ws (ground arith) in (suc t, v, e, n)
    | inr d ↦ (0, w, refl, d)
  ]

  -- Where every goroutine is done, two measures that agree on those that are agree on the list.
  pub all_done-map :
      {A : Type 0} (f g : W → A)
      → ((w : W) → is_done w ≡ true → f w ≡ g w)
      → (ws : List W) → all_done is_done ws ≡ true
      → map f ws ≡ map g ws
  unfolding all_done
  all_done-map f g same [] h = refl
  all_done-map f g same (w ∷ ws) h = elim (Bool-cases (is_done w)) [
    | inl d ↦ let e = same w d in let es = all_done-map f g same ws (ground arith) in cc
    | inr d ↦ absurd (ground arith)
  ]

module _ {W : Type 0} (is_done : W → Bool) where
  -- What only goroutines that are not done have, nobody has at the end.
  pub all_done-sum_of :
      (f : W → ℕ)
      → ((w : W) → is_done w ≡ true → f w ≡ 0)
      → (ws : List W) → all_done is_done ws ≡ true
      → sum_of f ws ≡ 0
  unfolding all_done sum_of
  all_done-sum_of f none_left [] h = refl
  all_done-sum_of f none_left (w ∷ ws) h = elim (Bool-cases (is_done w)) [
    | inl d ↦ omega (arith, none_left w d, all_done-sum_of f none_left ws (ground arith))
    | inr d ↦ absurd (ground arith)
  ]

-- What a step must show: the invariant after it, with one step less to go.
module _ {C W : Type 0} (P : Threads C W → Type 0) (steps : W → ℕ) where
  unfoldable pub IsFine : Threads C W → ℕ → W → Move C W → Type 0
  IsFine s t w (moved c w') =
      P (record { shared = c; workers = set s.workers t w' }) × (steps w ≡ suc (steps w'))
  IsFine s t w blocked = true ≡ true
  IsFine s t w finished = true ≡ true
  IsFine s t w panicked = ⊥

-- The duties of a program of goroutines: each step is fine, and one that is not done can move.
pub record ThreadRule {C W : Type 0} (advance : C → W → Move C W) (P : Threads C W → Type 0)
    (steps : W → ℕ) (is_done : W → Bool) : Type 0 where
  pub fine :
      (s : Threads C W) (t : ℕ) (w : W)
      → get_elem? s.workers t ≡ some w
      → P s
      → IsFine P steps s t w (advance s.shared w)
  pub free :
      (s : Threads C W)
      → P s
      → all_done is_done s.workers ≡ false
      → (t : ℕ) × (w : W) × (c : C) × (w' : W) × (get_elem? s.workers t ≡ some w)
        × (advance s.shared w ≡ moved c w')

module _ {C W : Type 0} {advance : C → W → Move C W} {P : Threads C W → Type 0} {steps : W → ℕ}
    {is_done : W → Bool} (rule : ThreadRule advance P steps is_done) where
  apply-keeps :
      (s : Threads C W) (t : ℕ) (w : W)
      → P s
      → (m : Move C W) → IsFine P steps s t w m
      → (s' : Threads C W) × (apply_move s t m ≡ ok s') × P s'
  unfolding IsFine apply_move
  apply-keeps s t w p (moved c w') fine = (_, refl, fine.0)
  apply-keeps s t w p blocked fine = (s, refl, p)
  apply-keeps s t w p finished fine = (s, refl, p)
  apply-keeps s t w p panicked fine = absurd fine

  try_thread-Keeps : (s : Threads C W) (t : ℕ) → P s → Keeps (try_thread advance) P s t
  unfolding try_thread
  try_thread-Keeps s t p = elim (Option-cases (get_elem? s.workers t)) [
    | inl e ↦ (s, rw (try_thread, e) refl, p)
    | inr (w, e) ↦
        let (s', a, p') = apply-keeps s t w p (advance s.shared w) (rule.fine s t w e p) in
        (s', rw (try_thread, e) a, p')
  ]

  try_thread-Advances :
      (s : Threads C W)
      → P s
      → all_done is_done s.workers ≡ false
      → Advances (try_thread advance) P (λ s. sum_of steps s.workers) s
  unfolding try_thread apply_move IsFine
  try_thread-Advances s p n =
      let (t, w, c, w', e, m) = rule.free s p n in
      let fine : IsFine P steps s t w (moved c w') =
        subst (IsFine P steps s t w) m (rule.fine s t w e p) in
      let less : steps w ≡ suc (steps w') = fine.1 in
      (
        t,
        record { shared = c; workers = set s.workers t w' },
        rw (try_thread, e, m) refl,
        fine.0,
        omega (arith, sum_of-set steps s.workers t w w' e, less),
      )

  -- So the program runs under every schedule, and can be run to its end.
  pub turn-Rule :
      Rule (try_thread advance) P (λ s. sum_of steps s.workers) (λ s. all_done is_done s.workers)
  turn-Rule = record { keeps = try_thread-Keeps; moves = try_thread-Advances }

module _ {W : Type 0} where
  -- Two goroutines count for both.
  pub sum_of-two :
      (f : W → ℕ) (ws : List W) (t u : ℕ) (w v : W)
      → t ≢ u
      → get_elem? ws t ≡ some w
      → get_elem? ws u ≡ some v
      → f w + f v ≤ sum_of f ws
  unfolding sum_of
  sum_of-two f [] t u w v n e d = cc
  sum_of-two f (x ∷ ws) zero zero w v n e d = absurd (n refl)
  sum_of-two f (x ∷ ws) zero (suc u) w v n e d =
      let s : x ≡ w = cc in rw (s) (omega (arith, sum_of-ge f ws u v d))
  sum_of-two f (x ∷ ws) (suc t) zero w v n e d =
      let s : x ≡ v = cc in rw (s) (omega (arith, sum_of-ge f ws t w e))
  sum_of-two f (x ∷ ws) (suc t) (suc u) w v n e d =
      omega (arith, sum_of-two f ws t u w v (λ s. n (omega (arith, s))) e d)

  -- After a write at `t`: the new value there, or another goroutine's old one.
  pub get_elem?-set_other :
      (ws : List W) (t : ℕ) (w' : W) (u : ℕ) (v : W)
      → get_elem? (set ws t w') u ≡ some v
      → ((t ≡ u) × (w' ≡ v)) ⊎ ((t ≢ u) × (get_elem? ws u ≡ some v))
  get_elem?-set_other [] t w' u v e = cc
  get_elem?-set_other (x ∷ ws) zero w' zero v e = inl (refl, cc)
  get_elem?-set_other (x ∷ ws) zero w' (suc u) v e = inr (λ n. absurd (omega arith), e)
  get_elem?-set_other (x ∷ ws) (suc t) w' zero v e = inr (λ n. absurd (omega arith), e)
  get_elem?-set_other (x ∷ ws) (suc t) w' (suc u) v e = elim (get_elem?-set_other ws t w' u v e) [
    | inl (at, same) ↦ inl (ap suc at, same)
    | inr (n, d) ↦ inr (λ s. n (omega arith), d)
  ]

  pub find_positive :
      (f : W → ℕ) (ws : List W)
      → sum_of f ws ≢ 0
      → (t : ℕ) × (w : W) × (get_elem? ws t ≡ some w) × (f w ≢ 0)
  unfolding sum_of
  find_positive f [] h = absurd (h refl)
  find_positive f (w ∷ ws) h = elim (ℕ_discrete (f w) 0) [
    | yes z ↦ let (t, v, e, n) = find_positive f ws (λ s. h (omega arith)) in (suc t, v, e, n)
    | no n ↦ (0, w, refl, n)
  ]

-- A Boolean as a number of goroutines that hold a mutex.
unfoldable pub bit : Bool → ℕ
bit true = 1
bit false = 0

-- Where one goroutine holds the mutex, or none if it is free, and one that is done does not hold it:
-- a goroutine that is not done and does not wait for the mutex.
module _ {W : Type 0} (is_done : W → Bool) (holding : W → ℕ) where
  pub find_free :
      ((w : W) → is_done w ≡ true → holding w ≡ 0)
      → (ws : List W) (held : Bool) → sum_of holding ws ≡ bit held
      → all_done is_done ws ≡ false
      → (t : ℕ) × (w : W) × (get_elem? ws t ≡ some w)
        × (held ≡ true → holding w ≢ 0)
        × (is_done w ≡ false)
  unfolding bit
  find_free idle ws true mutex n =
      let (t, w, e, z) = find_positive holding ws (λ z. omega (arith, mutex, z)) in
      (
        t,
        w,
        e,
        λ x. z,
        elim (Bool-cases (is_done w)) [ inl done ↦ absurd (z (idle w done)) | inr n' ↦ n' ],
      )
  find_free idle ws false mutex n =
      let (t, w, e, n') = find_undone is_done ws n in (t, w, e, λ x. absurd cc, n')
