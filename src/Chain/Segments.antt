-- ===== src/Chain/Segments.antt =====
-- Runs of nodes on the heap, by the list of their addresses.
use valk.Prelude.{ℕ, ◌≤◌, ◌<◌, ◌≡◌, refl, sym, ◌≢◌, none, some, List, [], ◌∷◌, ◌++◌, arith, length}
use valk.Chain.{Pointer, Heap, alloc, set_next}

-- From `p` the `next` fields lead through the addresses `xs` to `q`.
abbrev pub Segment : Heap → Pointer → List ℕ → Pointer → Type 0
Segment h p [] q = p ≡ q
Segment h p (a ∷ xs) q = (p ≡ some a) × Segment h (h.node a).next xs q

-- `a` is not among the addresses.
abbrev pub Absent : ℕ → List ℕ → Type 0
Absent a [] = Unit {0}
Absent a (b ∷ xs) = (b ≢ a) × Absent a xs

abbrev pub AllDistinct : List ℕ → Type 0
AllDistinct [] = Unit {0}
AllDistinct (a ∷ xs) = Absent a xs × AllDistinct xs

abbrev pub AllBelow : ℕ → List ℕ → Type 0
AllBelow n [] = Unit {0}
AllBelow n (a ∷ xs) = (a < n) × AllBelow n xs

-- `p` heads a list of the nodes `xs`: each occurs once, and all are allocated.
pub record IsChain (h : Heap) (p : Pointer) (xs : List ℕ) : Type 0 where
  pub linked : Segment h p xs none
  pub distinct : AllDistinct xs
  pub allocated : AllBelow h.fresh xs
  pub bounded : length xs ≤ h.fresh

pub Absent-of_below : (a : ℕ) (xs : List ℕ) → AllBelow a xs → Absent a xs
Absent-of_below a [] h = tt
Absent-of_below a (b ∷ xs) h = (omega arith, Absent-of_below a xs h.1)

pub AllBelow-mono : (n m : ℕ) (xs : List ℕ) → n ≤ m → AllBelow n xs → AllBelow m xs
AllBelow-mono n m [] le h = tt
AllBelow-mono n m (a ∷ xs) le h = (omega arith, AllBelow-mono n m xs le h.1)

pub Absent-append_one : (a b : ℕ) (xs : List ℕ) → Absent a xs → b ≢ a → Absent a (xs ++ b ∷ [])
Absent-append_one a b [] h ne = (ne, tt)
Absent-append_one a b (c ∷ xs) h ne = (h.0, Absent-append_one a b xs h.1 ne)

pub AllDistinct-append_one :
    (b : ℕ) (xs : List ℕ) → AllDistinct xs → Absent b xs → AllDistinct (xs ++ b ∷ [])
AllDistinct-append_one b [] h new = (tt, tt)
AllDistinct-append_one b (a ∷ xs) h new =
    (Absent-append_one a b xs h.0 (λ e. new.0 (sym e)), AllDistinct-append_one b xs h.1 new.1)

pub AllBelow-append_one :
    (n b : ℕ) (xs : List ℕ) → AllBelow n xs → b < n → AllBelow n (xs ++ b ∷ [])
AllBelow-append_one n b [] h lt = (lt, tt)
AllBelow-append_one n b (a ∷ xs) h lt = (h.0, AllBelow-append_one n b xs h.1 lt)

pub node-set_next_ne :
    (h : Heap) (a b : ℕ) (r : Pointer) → b ≢ a → (set_next b r h).node a ≡ h.node a
unfolding set_next
node-set_next_ne h a b r ne = ground arith

pub node-set_next_self : (h : Heap) (a : ℕ) (r : Pointer) → ((set_next a r h).node a).next ≡ r
unfolding set_next
node-set_next_self h a r = ground arith

pub fresh-set_next : (h : Heap) (a : ℕ) (r : Pointer) → (set_next a r h).fresh ≡ h.fresh
unfolding set_next
fresh-set_next h a r = refl

pub node-alloc_old : (h : Heap) (v a : ℕ) → a < h.fresh → (alloc v h).1.node a ≡ h.node a
unfolding alloc
node-alloc_old h v a lt = ground arith

-- Heaps that agree on the nodes of a segment.
pub Segment-agree :
    (h g : Heap) (p q : Pointer) (xs : List ℕ)
    → ((a : ℕ) → ¬ Absent a xs → g.node a ≡ h.node a)
    → Segment h p xs q
    → Segment g p xs q
Segment-agree h g p q [] same s = s
Segment-agree h g p q (a ∷ xs) same s = (
  s.0,
  rw (same a (λ out. out.0 refl)) (Segment-agree h g _ q xs (λ b i. same b (λ out. i out.1)) s.1),
)

-- A write to a node outside a segment keeps it.
pub Segment-set_next :
    (h : Heap) (b : ℕ) (r p q : Pointer) (xs : List ℕ)
    → Absent b xs
    → Segment h p xs q
    → Segment (set_next b r h) p xs q
Segment-set_next h b r p q [] out s = s
Segment-set_next h b r p q (a ∷ xs) out s = (
  s.0,
  rw (node-set_next_ne h a b r (λ e. out.0 (sym e))) (Segment-set_next h b r _ q xs out.1 s.1),
)

-- The last node of a segment gets a new successor.
pub Segment-append_one :
    (h : Heap) (a : ℕ) (p q : Pointer) (xs : List ℕ)
    → Segment h p xs (some a)
    → (h.node a).next ≡ q
    → Segment h p (xs ++ a ∷ []) q
Segment-append_one h a p q [] s e = (s, e)
Segment-append_one h a p q (b ∷ xs) s e = (s.0, Segment-append_one h a _ q xs s.1 e)

-- Heaps that agree below an address agree on the segments of nodes below it.
pub Segment-below :
    (h g : Heap) (n : ℕ) (p q : Pointer) (xs : List ℕ)
    → ((a : ℕ) → a < n → g.node a ≡ h.node a)
    → AllBelow n xs
    → Segment h p xs q
    → Segment g p xs q
Segment-below h g n p q [] same old s = s
Segment-below h g n p q (a ∷ xs) same old s =
    (s.0, rw (same a old.0) (Segment-below h g n _ q xs same old.1 s.1))

-- A chain survives on a heap that has grown and kept the older nodes.
pub IsChain-grown :
    (h g : Heap) {p : Pointer} {xs : List ℕ}
    → IsChain h p xs
    → h.fresh ≤ g.fresh
    → ((a : ℕ) → a < h.fresh → g.node a ≡ h.node a)
    → IsChain g p xs
IsChain-grown h g {p} {xs} is le same = record {
  linked = Segment-below h g h.fresh p none xs same is.allocated is.linked;
  distinct = is.distinct;
  allocated = AllBelow-mono h.fresh g.fresh xs le is.allocated;
  bounded = omega (arith, is.bounded);
}
