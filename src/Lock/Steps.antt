-- ===== src/Lock/Steps.antt =====
-- The steps of the goroutines of examples/bench/shared-lock/main.go keep the invariant, and one of
-- them can always be made.
use mathlib.Core.Path.{subst}
use valk.Prelude.{
  ℕ, zero, suc, ◌+◌, ◌^◌, ◌≤◌, ◌<◌, ◌≡◌, refl, ◌≢◌, ◌⊎◌, inl, inr, some, List, Bool, true, false,
  arith, get_elem?, set, length, ◌==◌, Bool-cases,
}
use valk.Prelude.Bytes.{same_bytes_iff}
use valk.Prelude.Int.{add64}
use valk.Prelude.Threads.{
  Threads, Move, moved, blocked, finished, panicked, IsFine, ThreadRule, sum_of-two,
  get_elem?-set_other, bit, find_free,
}
use valk.Prelude.Updates.{sum_of, sum_of-set, sum_of-ge}
use valk.Lock.{Items, value_at, Counts, test, lock, read, write, unlock, Phase, Worker, advance}
use valk.Lock.Counted.{
  pending, pending_all, holding, steps, sum_values, IsDistinct, IsDistinct-set_value, IsFresh,
  value_at-set_value, value_at-le, sum_values-set_value,
}
use valk.Lock.Main.{is_done}

IsFresh-idle :
    (items : Items) (left r : ℕ) (phase : Phase)
    → holding (record { left = left; r = r; phase = phase }) ≡ 0
    → IsFresh items phase
unfolding holding IsFresh
IsFresh-idle items left r test h = refl
IsFresh-idle items left r (lock key) h = refl
IsFresh-idle items left r (read key) h = refl
IsFresh-idle items left r (write key value) h = absurd (omega arith)
IsFresh-idle items left r unlock h = refl

module _ (keys : List (List ℕ)) (expected : List ℕ → ℕ) (whole : ℕ) where
  -- `expected` is the number of increments of each key in all, and `whole` that of all keys.
  pub record IsCounted (s : Threads Counts Worker) : Type 0 where
    pub mutex : sum_of holding s.workers ≡ bit s.shared.held
    pub fresh :
        (t : ℕ) (w : Worker) → get_elem? s.workers t ≡ some w → IsFresh s.shared.items w.phase
    pub counts :
        (k : List ℕ) → value_at k s.shared.items + sum_of (pending keys k) s.workers ≡ expected k
    pub distinct : IsDistinct s.shared.items
    pub total : sum_values s.shared.items + sum_of pending_all s.workers ≡ whole

-- What a step from `c` and `w` to `c'` and `w'` must show.
record IsStep (keys : List (List ℕ)) (c : Counts) (w : Worker) (c' : Counts) (w' : Worker)
    : Type 0 where
  holds : bit c'.held + holding w ≡ bit c.held + holding w'
  counts :
      (k : List ℕ) → value_at k c'.items + pending keys k w' ≡ value_at k c.items + pending keys k w
  distinct : IsDistinct c.items → IsDistinct c'.items
  total : sum_values c'.items + pending_all w' ≡ sum_values c.items + pending_all w
  fresh : IsFresh c'.items w'.phase
  others : (c.items ≡ c'.items) ⊎ (holding w ≡ 1)
  less : steps w ≡ suc (steps w')

module _ (keys : List (List ℕ)) (expected : List ℕ → ℕ) (whole : ℕ) (s : Threads Counts Worker)
    (t : ℕ) (w : Worker) (e : get_elem? s.workers t ≡ some w)
    (p : IsCounted keys expected whole s) where
  others-IsFresh :
      (c' : Counts) (w' : Worker)
      → IsStep keys s.shared w c' w'
      → (u : ℕ) (v : Worker) → get_elem? (set s.workers t w') u ≡ some v
      → IsFresh c'.items v.phase
  unfolding bit
  others-IsFresh c' w' st u v d = elim (get_elem?-set_other s.workers t w' u v d) [
    | inl (at, same) ↦ subst (λ x. IsFresh c'.items x.phase) same st.fresh
    | inr (n, old) ↦ elim st.others [
      | inl kept ↦ subst (λ items. IsFresh items v.phase) kept (p.fresh u v old)
      | inr one ↦
          let both = sum_of-two holding s.workers t u w v n e old in
          let most : bit s.shared.held ≤ 1 = elim s.shared.held as (λ b. bit b ≤ 1) [
            | true ↦ omega arith
            | false ↦ omega arith
          ] in
          IsFresh-idle c'.items v.left v.r v.phase (omega (arith, p.mutex))
    ]
  ]

  IsStep-IsCounted :
      (c' : Counts) (w' : Worker)
      → IsStep keys s.shared w c' w'
      → IsCounted keys expected whole (record { shared = c'; workers = set s.workers t w' })
  IsStep-IsCounted c' w' st = record {
    mutex = omega (arith, sum_of-set holding s.workers t w w' e, p.mutex, st.holds);
    fresh = others-IsFresh c' w' st;
    counts =
        λ k. omega (arith, sum_of-set (pending keys k) s.workers t w w' e, p.counts k, st.counts k);
    distinct = st.distinct p.distinct;
    total = omega (arith, sum_of-set pending_all s.workers t w w' e, p.total, st.total);
  }

-- What a move of a goroutine shows.
abbrev StepsTo : List (List ℕ) → Counts → Worker → Move Counts Worker → Type 0
StepsTo keys c w (moved c' w') = IsStep keys c w c' w'
StepsTo keys c w blocked = (c.held ≡ true) × (holding w ≡ 0)
StepsTo keys c w finished = is_done w ≡ true
StepsTo keys c w panicked = ⊥

-- Every statement, with the goroutine and the map by their fields.
statement-StepsTo :
    (keys : List (List ℕ))
    → 0 < length keys
    → (items : Items) (held : Bool) (left r : ℕ) (phase : Phase)
    → let w : Worker = record { left = left; r = r; phase = phase } in
      let c : Counts = record { held = held; items = items } in
      IsFresh items phase
      → holding w ≤ bit held
      → sum_values items + pending_all w < 2 ^ 64
      → StepsTo keys c w (advance keys c w)
unfolding advance is_done holding bit pending pending_all steps IsFresh
statement-StepsTo keys h items held zero r test f b m = refl
statement-StepsTo keys h items held (suc n) r test f b m = elim (Bool-cases (length keys == 0)) [
  | inl z ↦ absurd (ground arith)
  | inr z ↦ rw (z) (record {
    holds = refl;
    counts = λ k. omega arith;
    distinct = λ d. d;
    total = omega arith;
    fresh = refl;
    others = inl refl;
    less = omega arith;
  })
]
statement-StepsTo keys h items true left r (lock key) f b m = (refl, refl)
statement-StepsTo keys h items false left r (lock key) f b m = record {
  holds = refl;
  counts = λ k. refl;
  distinct = λ d. d;
  total = refl;
  fresh = refl;
  others = inl refl;
  less = omega arith;
}
statement-StepsTo keys h items held left r (read key) f b m = record {
  holds = refl;
  counts = λ k. refl;
  distinct = λ d. d;
  total = refl;
  fresh = refl;
  others = inl refl;
  less = omega arith;
}
statement-StepsTo keys h items held left r (write key value) f b m =
    let small : value + 1 < 2 ^ 64 = omega (arith, value_at-le key items, f) in
    record {
      holds = refl;
      counts = λ k.
          ground (arith, value_at-set_value key k (add64 value 1) items, f, same_bytes_iff key k);
      distinct = IsDistinct-set_value key (add64 value 1) items;
      total = omega (arith, sum_values-set_value key (add64 value 1) items, f);
      fresh = refl;
      others = inr refl;
      less = omega arith;
    }
statement-StepsTo keys h items true left r unlock f b m = record {
  holds = refl;
  counts = λ k. refl;
  distinct = λ d. d;
  total = refl;
  fresh = refl;
  others = inl refl;
  less = omega arith;
}
statement-StepsTo keys h items false left r unlock f b m = absurd (omega arith)

is_done-holding :
    (left r : ℕ) (phase : Phase)
    → let w : Worker = record { left = left; r = r; phase = phase } in
      is_done w ≡ true → holding w ≡ 0
unfolding is_done holding
is_done-holding zero r test h = refl
is_done-holding zero r (lock key) h = refl
is_done-holding zero r (read key) h = cc
is_done-holding zero r (write key value) h = cc
is_done-holding zero r unlock h = cc
is_done-holding (suc left) r phase h = cc

-- A goroutine that is not done moves, unless it waits for the mutex.
StepsTo-moved :
    (keys : List (List ℕ)) (c : Counts) (w : Worker) (m : Move Counts Worker)
    → StepsTo keys c w m
    → (c.held ≡ true → holding w ≢ 0)
    → is_done w ≡ false
    → (c' : Counts) × (w' : Worker) × (m ≡ moved c' w')
StepsTo-moved keys c w (moved c' w') st free n = (c', w', refl)
StepsTo-moved keys c w blocked (h, z) free n = absurd (free h z)
StepsTo-moved keys c w finished d free n = cc
StepsTo-moved keys c w panicked st free n = absurd st

module _ (keys : List (List ℕ)) (h : 0 < length keys) (expected : List ℕ → ℕ) (whole : ℕ)
    (small : whole < 2 ^ 64) where
  advance-StepsTo :
      (s : Threads Counts Worker) (t : ℕ) (w : Worker)
      → get_elem? s.workers t ≡ some w
      → IsCounted keys expected whole s
      → StepsTo keys s.shared w (advance keys s.shared w)
  advance-StepsTo s t w e p =
      statement-StepsTo keys h s.shared.items s.shared.held w.left w.r w.phase (p.fresh t w e)
        (omega (arith, sum_of-ge holding s.workers t w e, p.mutex))
        (omega (arith, sum_of-ge pending_all s.workers t w e, p.total))

  StepsTo-IsFine :
      (s : Threads Counts Worker) (t : ℕ) (w : Worker)
      → get_elem? s.workers t ≡ some w
      → IsCounted keys expected whole s
      → (m : Move Counts Worker) → StepsTo keys s.shared w m
      → IsFine (IsCounted keys expected whole) steps s t w m
  unfolding IsFine
  StepsTo-IsFine s t w e p (moved c' w') st =
      (IsStep-IsCounted keys expected whole s t w e p c' w' st, st.less)
  StepsTo-IsFine s t w e p blocked st = refl
  StepsTo-IsFine s t w e p finished st = refl
  StepsTo-IsFine s t w e p panicked st = st

  -- The holder of the mutex can move, and with the mutex free any goroutine that is not done.
  pub lock-ThreadRule : ThreadRule (advance keys) (IsCounted keys expected whole) steps is_done
  lock-ThreadRule = record {
    fine =
        λ s t w e p. StepsTo-IsFine s t w e p (advance keys s.shared w) (advance-StepsTo s t w e p);
    free = λ s p n.
        let (t, w, e, free, n') =
          find_free is_done holding (λ w done. is_done-holding w.left w.r w.phase done) s.workers
            s.shared.held p.mutex n in
        let (c', w', m) =
          StepsTo-moved keys s.shared w (advance keys s.shared w) (advance-StepsTo s t w e p) free
            n' in
        (t, w, c', w', e, m);
  }
