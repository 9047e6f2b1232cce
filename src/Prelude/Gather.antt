-- ===== src/Prelude/Gather.antt =====
-- Results that arrive in any order and are stored by their own index, as binary-tree-multi does it:
-- `results[result.index] = result` for each result received.
use mathlib.Core.List.Perm
use mathlib.Core.List.{
  Mem, Memᴰ, Perm, mem-cons_self, mem-cons_of_mem, not-mem-nil, eq-or-mem_of_mem-cons,
}
use mathlib.Core.Logic.Or
use mathlib.Core.Logic.{◌∨₁◌}
use mathlib.Core.Logic.{∨₁_prop, ∥∥₁_elim}
use mathlib.Core.Option
use native.Mathlib.Decide.{ℕ_discrete}
use valk.Prelude.{
  ℕ, zero, suc, ◌<◌, ◌≡◌, refl, ap, ◌∙◌, Option, some, List, [], ◌∷◌, true, false, arith, Result,
  ok, panic, length, get_elem?, set, length-set, get_elem?-set_self, get_elem?-set_ne, ltb,
}

-- An index out of range panics.
unfoldable pub gather : {A : Type 0} → (A → ℕ) → List A → List A → Result (List A)
gather index [] out = ok out
gather index (r ∷ rs) out = elim (ltb (index r) (length out)) [
  | true ↦ gather index rs (set out (index r) r)
  | false ↦ panic
]

pub get_elem?-lt :
    {A : Type 0} (xs : List A) (i : ℕ) {a : A} → get_elem? xs i ≡ some a → i < length xs
get_elem?-lt [] i h = cc
get_elem?-lt (x ∷ xs) zero h = omega arith
get_elem?-lt (x ∷ xs) (suc i) h = omega (arith, get_elem?-lt xs i h)

pub mem_of_get_elem? :
    {A : Type 0} (xs : List A) (i : ℕ) {a : A} → get_elem? xs i ≡ some a → Mem a xs
mem_of_get_elem? [] i h = cc
mem_of_get_elem? (x ∷ xs) zero {a} h = let e : a ≡ x = cc in rw e mem-cons_self
mem_of_get_elem? (x ∷ xs) (suc i) h = mem-cons_of_mem x (mem_of_get_elem? xs i h)

pub get_elem?_of_mem :
    {A : Type 0} (xs : List A) {a : A} → Memᴰ a xs → (i : ℕ) × (get_elem? xs i ≡ some a)
get_elem?_of_mem [] m = elim m [ ]
get_elem?_of_mem (x ∷ xs) (Memᴰ.head e) = (0, rw e refl)
get_elem?_of_mem (x ∷ xs) (Memᴰ.tail m) = let (i, e) = get_elem?_of_mem xs m in (suc i, e)

pub eq_of_get_elem? :
    {A : Type 0} (xs ys : List A)
    → length xs ≡ length ys
    → ((i : ℕ) (a : A) → get_elem? ys i ≡ some a → get_elem? xs i ≡ some a)
    → xs ≡ ys
eq_of_get_elem? [] [] e h = refl
eq_of_get_elem? [] (y ∷ ys) e h = absurd (omega arith)
eq_of_get_elem? (x ∷ xs) [] e h = absurd (omega arith)
eq_of_get_elem? (x ∷ xs) (y ∷ ys) e h =
    let rest = eq_of_get_elem? xs ys (omega arith) (λ i a. h (suc i) a) in cc (h 0 y refl)

module _ {A : Type 0} (A_set : IsSet A) (index : A → ℕ) (jobs : List A)
    (indexed : (i : ℕ) (r : A) → get_elem? jobs i ≡ some r → index r ≡ i) where
  -- Each element is the job of its index.
  abbrev AreJobs : List A → Type 0
  AreJobs arrived = (r : A) → Mem r arrived → get_elem? jobs (index r) ≡ some r

  abbrev Settled : List A → List A → List A → Type 0
  Settled arrived out out' =
      (i : ℕ) (r : A)
      → get_elem? jobs i ≡ some r
      → (get_elem? out i ≡ some r) ∨₁ Mem r arrived
      → get_elem? out' i ≡ some r

  eq_prop : (x y : Option A) → IsProp (x ≡ y)
  eq_prop = Option.is_set A_set

  -- Storing one job keeps what is stored and settles its own index.
  settle_one :
      (out rs : List A) (r : A)
      → get_elem? jobs (index r) ≡ some r
      → index r < length out
      → (i : ℕ) (q : A) → get_elem? jobs i ≡ some q
      → (get_elem? out i ≡ some q) ∨₁ Mem q (r ∷ rs)
      → (get_elem? (set out (index r) r) i ≡ some q) ∨₁ Mem q rs
  settle_one out rs r here inside i q job known = elim (ℕ_discrete (index r) i) [
    | yes e ↦ Or.inl (rw (← e) (get_elem?-set_self out (index r) r inside ∙ (cc)))
    | no ne ↦
        Or.elim ∨₁_prop known (λ kept. Or.inl (get_elem?-set_ne out r ne ∙ kept))
          (λ m.
            Or.elim ∨₁_prop (eq-or-mem_of_mem-cons m)
              (λ same. absurd (ne (rw (← same) (indexed i q job)))) Or.inr)
  ]

  gather-Settled :
      (arrived out : List A)
      → AreJobs arrived
      → length out ≡ length jobs
      → (out' : List A) × (gather index arrived out ≡ ok out')
        × (length out' ≡ length jobs)
        × Settled arrived out out'
  unfolding gather
  gather-Settled [] out are e =
      (out, refl, e, λ i r job m. Or.elim (eq_prop _ _) m (λ h. h) (λ h. absurd (not-mem-nil h)))
  gather-Settled (r ∷ rs) out are e =
      let here = are r mem-cons_self in
      let inside : index r < length out = omega (arith, get_elem?-lt jobs (index r) here) in
      let (out', run, e', settled) =
        gather-Settled rs (set out (index r) r) (λ q m. are q (mem-cons_of_mem r m))
          (length-set out (index r) r ∙ e) in
      (
        out',
        ground arith,
        e',
        λ i q job known. settled i q job (settle_one out rs r here inside i q job known),
      )

  job_of_mem : (r : A) → Mem r jobs → get_elem? jobs (index r) ≡ some r
  job_of_mem r m =
      ∥∥₁_elim m (eq_prop _ _)
        λ found. let (i, job) = get_elem?_of_mem jobs found in rw (indexed i r job) job

  -- In whatever order the jobs arrive, they are stored in the order of their indices.
  pub gather-jobs :
      (arrived out : List A)
      → Perm arrived jobs
      → length out ≡ length jobs
      → gather index arrived out ≡ ok jobs
  gather-jobs arrived out perm e =
      let (out', run, e', settled) =
        gather-Settled arrived out (λ r m. job_of_mem r ((Perm.mem_iff perm).0 m)) e in
      run
      ∙ ap ok (
          eq_of_get_elem? out' jobs e' (λ i q job.
            settled i q job (Or.inr ((Perm.mem_iff perm).1 (mem_of_get_elem? jobs i job)))))
