-- ===== src/Prelude/Turns.antt =====
-- Programs of several goroutines: a state, and a step that is chosen by a turn of the scheduler.
-- `Rule` is what a program shows of its steps; what it gives holds of every schedule.
use valk.Prelude.{
  ℕ, zero, suc, ◌≡◌, refl, ◌∙◌, inl, inr, List, [], ◌∷◌, ◌++◌, Bool, true, false, arith, Result, ok,
  ◌>>=◌, bind-bind, Bool-cases,
}

module _ {S T : Type 0} (try_turn : S → T → Result S) where
  unfoldable pub run_turns : S → List T → Result S
  run_turns s [] = ok s
  run_turns s (t ∷ turns) = do s' ← try_turn s t; run_turns s' turns

module _ {S T : Type 0} (try_turn : S → T → Result S) where
  pub run_turns-append :
      (turns more : List T) (s : S)
      → run_turns try_turn s (turns ++ more)
        ≡ run_turns try_turn s turns >>= λ s'. run_turns try_turn s' more
  unfolding run_turns
  run_turns-append [] more s = refl
  run_turns-append (t ∷ turns) more s =
      bind-bind (try_turn s t) (λ s'. run_turns try_turn s' turns)
        (λ s'. run_turns try_turn s' more) (λ s'. run_turns try_turn s' (turns ++ more))
        (run_turns-append turns more)

-- `try_turn` takes this turn from `s`, without a panic, to a state with the invariant.
abbrev pub Keeps : {S T : Type 0} → (S → T → Result S) → (S → Type 0) → S → T → Type 0
Keeps {S} try_turn P s t = (s' : S) × (try_turn s t ≡ ok s') × P s'

-- Every schedule runs, and keeps the invariant.
module _ {S T : Type 0} {try_turn : S → T → Result S} {P : S → Type 0} where
  pub run_turns-Keeps :
      ((s : S) (t : T) → P s → Keeps try_turn P s t)
      → (s : S) (turns : List T) → P s
      → (s' : S) × (run_turns try_turn s turns ≡ ok s') × P s'
  unfolding run_turns
  run_turns-Keeps keeps s [] p = (s, refl, p)
  run_turns-Keeps keeps s (t ∷ turns) p =
      let (s1, e, p1) = keeps s t p in rw (e) (run_turns-Keeps keeps s1 turns p1)

-- A turn from `s` with one step less to go.
abbrev pub Advances : {S T : Type 0} → (S → T → Result S) → (S → Type 0) → (S → ℕ) → S → Type 0
Advances {S} {T} try_turn P steps s =
    (t : T) × (s' : S) × (try_turn s t ≡ ok s') × P s' × (steps s ≡ suc (steps s'))

-- The invariant `P` holds after every turn, none of which panics, and until the program is done some
-- turn advances it.
pub record Rule {S T : Type 0} (try_turn : S → T → Result S) (P : S → Type 0) (steps : S → ℕ)
    (done : S → Bool) : Type 0 where
  pub keeps : (s : S) (t : T) → P s → Keeps try_turn P s t
  pub moves : (s : S) → P s → done s ≡ false → Advances try_turn P steps s

module _ {S T : Type 0} {try_turn : S → T → Result S} {P : S → Type 0} {steps : S → ℕ}
    {done : S → Bool} (rule : Rule try_turn P steps done) where
  finish :
      (n : ℕ) (s : S)
      → steps s ≡ n
      → P s
      → (turns : List T) × (s' : S) × (run_turns try_turn s turns ≡ ok s') × P s' × (done s' ≡ true)
  unfolding run_turns
  finish zero s e p = elim (Bool-cases (done s)) [
    | inl d ↦ ([], s, refl, p, d)
    | inr d ↦ let (t, s1, e1, p1, less) = rule.moves s p d in absurd (omega arith)
  ]
  finish (suc n) s e p = elim (Bool-cases (done s)) [
    | inl d ↦ ([], s, refl, p, d)
    | inr d ↦
        let (t, s1, e1, p1, less) = rule.moves s p d in
        let (ts, s2, e2, p2, end) = finish n s1 (omega arith) p1 in
        (t ∷ ts, s2, rw (run_turns, e1) e2, p2, end)
  ]

  -- Every schedule can be continued until the program is done.
  pub run_turns-completes :
      (s : S) (turns : List T)
      → P s
      → (more : List T) × (s' : S) × (run_turns try_turn s (turns ++ more) ≡ ok s')
        × P s'
        × (done s' ≡ true)
  run_turns-completes s turns p =
      let (s1, e, p1) = run_turns-Keeps rule.keeps s turns p in
      let (more, s2, e2, p2, end) = finish (steps s1) s1 refl p1 in
      (more, s2, run_turns-append try_turn turns more s ∙ rw (e) e2, p2, end)
