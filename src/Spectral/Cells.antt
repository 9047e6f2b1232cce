-- ===== src/Spectral/Cells.antt =====
-- `multiply` of examples/bench/spectral-norm-multi/main.go puts every row in its place, in whatever
-- order the chunks arrive.
use mathlib.Core.List.{Mem, mem-cons_self, mem-cons_of_mem, not-mem-nil, eq-or-mem_of_mem-cons}
use mathlib.Core.Logic.{◌∨₁◌, ∨₁_prop}
use mathlib.Core.Logic.Or
use mathlib.Core.Option
use valk.Prelude.{
  ℕ, zero, suc, ◌+◌, ◌-◌, ◌≤◌, ◌<◌, ◌≡◌, refl, ◌∙◌, ap, ◌⊎◌, inl, inr, some, List, [], ◌∷◌, ◌&&◌,
  leb, arith, ok, length, get_elem?, ltb, Bool-cases,
}
use valk.Spectral.Parallel.{Chunk, copy, copy_from, receive}

module _ {F : Type 0} where
  length-copy : (out values : List F) → length (copy out values) ≡ length out
  unfolding copy
  length-copy [] values = refl
  length-copy (x ∷ out) [] = refl
  length-copy (x ∷ out) (v ∷ vs) = ap suc (length-copy out vs)

  copy-inside :
      (out values : List F) (i : ℕ)
      → length values ≤ length out
      → i < length values
      → get_elem? (copy out values) i ≡ get_elem? values i
  unfolding copy
  copy-inside out [] i h l = absurd (omega arith)
  copy-inside [] (v ∷ vs) i h l = absurd (omega arith)
  copy-inside (x ∷ out) (v ∷ vs) zero h l = refl
  copy-inside (x ∷ out) (v ∷ vs) (suc i) h l = copy-inside out vs i (omega arith) (omega arith)

  copy-outside :
      (out values : List F) (i : ℕ)
      → length values ≤ i
      → get_elem? (copy out values) i ≡ get_elem? out i
  unfolding copy
  copy-outside [] values i l = refl
  copy-outside (x ∷ out) [] i l = refl
  copy-outside (x ∷ out) (v ∷ vs) zero l = absurd (omega arith)
  copy-outside (x ∷ out) (v ∷ vs) (suc i) l = copy-outside out vs i (omega arith)

  -- What `copy_from` returns where it does not panic.
  pasted : ℕ → List F → List F → List F
  pasted zero out values = copy out values
  pasted (suc start) [] values = []
  pasted (suc start) (x ∷ out) values = x ∷ pasted start out values

  copy_from-pasted :
      (start : ℕ) (out values : List F)
      → start ≤ length out
      → copy_from start out values ≡ ok (pasted start out values)
  unfolding copy_from pasted
  copy_from-pasted zero out values h = refl
  copy_from-pasted (suc start) [] values h = absurd (omega arith)
  copy_from-pasted (suc start) (x ∷ out) values h =
      rw (copy_from-pasted start out values (omega arith)) refl

  length-pasted : (start : ℕ) (out values : List F) → length (pasted start out values) ≡ length out
  unfolding pasted
  length-pasted zero out values = length-copy out values
  length-pasted (suc start) [] values = refl
  length-pasted (suc start) (x ∷ out) values = ap suc (length-pasted start out values)

  pasted-inside :
      (start : ℕ) (out values : List F) (i : ℕ)
      → start + length values ≤ length out
      → start ≤ i
      → i < start + length values
      → get_elem? (pasted start out values) i ≡ get_elem? values (i - start)
  unfolding pasted
  pasted-inside zero out values i h g l =
      let z : i - 0 ≡ i = omega arith in
      rw (z) (copy-inside out values i (omega arith) (omega arith))
  pasted-inside (suc start) [] values i h g l = absurd (omega arith)
  pasted-inside (suc start) (x ∷ out) values zero h g l = absurd (omega arith)
  pasted-inside (suc start) (x ∷ out) values (suc i) h g l =
      let z : suc i - suc start ≡ i - start = omega arith in
      rw (z) (pasted-inside start out values i (omega arith) (omega arith) (omega arith))

  pasted-outside :
      (start : ℕ) (out values : List F) (i : ℕ)
      → (i < start) ⊎ (start + length values ≤ i)
      → get_elem? (pasted start out values) i ≡ get_elem? out i
  unfolding pasted
  pasted-outside zero out values i (inl l) = absurd (omega arith)
  pasted-outside zero out values i (inr g) = copy-outside out values i (omega arith)
  pasted-outside (suc start) [] values i h = refl
  pasted-outside (suc start) (x ∷ out) values zero h = refl
  pasted-outside (suc start) (x ∷ out) values (suc i) (inl l) =
      pasted-outside start out values i (inl (omega arith))
  pasted-outside (suc start) (x ∷ out) values (suc i) (inr g) =
      pasted-outside start out values i (inr (omega arith))

-- Chunks of a vector whose element `i` is `cell i`, and its `n` elements.
module _ {F : Type 0} (F_set : IsSet F) (cell : ℕ → F) (n : ℕ) where
  abbrev pub IsPart : Chunk F → Type 0
  IsPart c =
      (c.start + length c.values ≤ n)
      × ((k : ℕ) → k < length c.values → get_elem? c.values k ≡ some (cell (c.start + k)))

  abbrev pub Covers : ℕ → Chunk F → Type 0
  Covers i c = (c.start ≤ i) × (i < c.start + length c.values)

  pub eq_prop : (x y : Option.Option F) → IsProp (x ≡ y)
  eq_prop = Option.is_set F_set

  -- Element `i` is there, or a chunk that has it is still to come.
  abbrev pub Known : ℕ → List F → List (Chunk F) → Type 0
  Known i out chunks =
      (get_elem? out i ≡ some (cell i)) ∨₁ ((c : Chunk F) × Mem c chunks × Covers i c)

  paste_one :
      (out : List F) (c : Chunk F) (rest : List (Chunk F)) (i : ℕ)
      → IsPart c
      → length out ≡ n
      → Known i out (c ∷ rest)
      → Known i (pasted c.start out c.values) rest
  paste_one out c rest i part e known =
      elim (Bool-cases (leb c.start i && ltb i (c.start + length c.values))) [
        | inl yes_in ↦ Or.inl (
            pasted-inside c.start out c.values i (omega (arith, part.0)) (ground arith)
              (ground arith)
            ∙ part.1 (i - c.start) (ground arith)
            ∙ ap (λ k. some (cell k)) (ground arith))
        | inr not_in ↦
            let away : (i < c.start) ⊎ (c.start + length c.values ≤ i) = ground arith in
            Or.elim ∨₁_prop known
              (λ kept. Or.inl (pasted-outside c.start out c.values i away ∙ kept))
              (λ later.
                Or.elim ∨₁_prop (eq-or-mem_of_mem-cons later.1)
                  (λ same. absurd (let g = rw same at later.2 in ground arith))
                  (λ m. Or.inr (later.0, m, later.2)))
      ]

  pub receive-Known :
      (chunks : List (Chunk F)) (out : List F)
      → ((c : Chunk F) → Mem c chunks → IsPart c)
      → length out ≡ n
      → (out' : List F) × (receive chunks out ≡ ok out')
        × (length out' ≡ n)
        × ((i : ℕ) → Known i out chunks → get_elem? out' i ≡ some (cell i))
  unfolding receive
  receive-Known [] out parts e = (
    out,
    refl,
    e,
    λ i known. Or.elim (eq_prop _ _) known (λ h. h) (λ later. absurd (not-mem-nil later.1)),
  )
  receive-Known (c ∷ chunks) out parts e =
      let part = parts c mem-cons_self in
      let (out', run, e', all_known) =
        receive-Known chunks (pasted c.start out c.values) (λ d m. parts d (mem-cons_of_mem c m))
          (length-pasted c.start out c.values ∙ e) in
      (
        out',
        rw (receive, copy_from-pasted c.start out c.values (omega (arith, part.0))) run,
        e',
        λ i known. all_known i (paste_one out c chunks i part e known),
      )
