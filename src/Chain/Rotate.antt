-- ===== src/Chain/Rotate.antt =====
-- `benchMutateLinks` turns a chain round, node by node, and loses none.
use valk.Prelude.{
  ℕ, zero, suc, ◌+◌, ◌<◌, ◌≡◌, refl, ◌∙◌, ◌≢◌, none, some, List, [], ◌∷◌, ◌++◌, arith, ok, length,
  length-append,
}
use valk.Chain.{Pointer, Heap, set_next, last_loop, rotate_once, rotate_loop}
use valk.Chain.Segments.{
  Segment, Absent, AllDistinct, IsChain, Segment-set_next, node-set_next_ne, node-set_next_self,
  fresh-set_next, AllDistinct-append_one, AllBelow-append_one,
}

-- The first element goes to the end.
unfoldable pub rotate : List ℕ → List ℕ
rotate [] = []
rotate (a ∷ xs) = xs ++ a ∷ []

unfoldable pub rotations : ℕ → List ℕ → List ℕ
unfolding rotate
rotations zero xs = xs
rotations (suc k) xs = rotations k (rotate xs)

-- The walk from `b` ends at the last node of the segment.
unfoldable pub last_of : ℕ → List ℕ → ℕ
last_of b [] = b
last_of b (c ∷ xs) = last_of c xs

last_loop-Segment :
    (fuel : ℕ) (h : Heap) (b : ℕ) (xs : List ℕ)
    → Segment h (h.node b).next xs none
    → length xs < fuel
    → last_loop fuel b h ≡ ok (last_of b xs)
unfolding last_loop last_of
last_loop-Segment zero h b xs s enough = absurd (omega arith)
last_loop-Segment (suc fuel) h b [] s enough = ground arith
last_loop-Segment (suc fuel) h b (c ∷ xs) s enough =
    ground (arith, last_loop-Segment fuel h c xs s.1)

last_of-ne : (a b : ℕ) (xs : List ℕ) → Absent a (b ∷ xs) → last_of b xs ≢ a
unfolding last_of
last_of-ne a b [] out = out.0
last_of-ne a b (c ∷ xs) out = last_of-ne a c xs out.1

-- A write to the last node appends what it points to.
Segment-last :
    (h : Heap) (p : Pointer) (b a : ℕ) (xs : List ℕ)
    → AllDistinct (b ∷ xs)
    → Absent a (b ∷ xs)
    → (h.node a).next ≡ none
    → Segment h p (b ∷ xs) none
    → Segment (set_next (last_of b xs) (some a) h) p (b ∷ xs ++ a ∷ []) none
unfolding last_of
Segment-last h p b a [] distinct out end s =
    (s.0, (node-set_next_self h b (some a), rw (node-set_next_ne h a b (some a) out.0) end))
Segment-last h p b a (c ∷ xs) distinct out end s =
    let rest = Segment-last h (h.node b).next c a xs distinct.1 out.1 end s.1 in
    let kept = node-set_next_ne h b (last_of c xs) (some a) (last_of-ne b c xs distinct.0) in
    (s.0, rw kept rest)

-- One round on a chain of two nodes or more puts its first node last. No node is lost, and none is
-- added.
pub rotate_once-rotate :
    {h : Heap} {a b : ℕ} {xs : List ℕ}
    → IsChain h (some a) (a ∷ b ∷ xs)
    → (g : Heap) × (rotate_once a h ≡ ok (some b, g))
      × IsChain g (some b) (rotate (a ∷ b ∷ xs))
      × (g.fresh ≡ h.fresh)
unfolding rotate_once rotate
rotate_once-rotate {h} {a} {b} {xs} is =
    let h1 = set_next a none h in
    let tail = last_of b xs in
    let g = set_next tail (some a) h1 in
    let out = is.distinct.0 in
    let front = Segment-set_next h a none (some b) none (b ∷ xs) out (refl, is.linked.1.1) in
    let walked = last_loop-Segment (h.fresh + 1) h1 b xs front.1 (omega (arith, is.bounded)) in
    let same : g.fresh ≡ h.fresh = fresh-set_next h1 tail (some a) ∙ fresh-set_next h a none in
    (
      g,
      ground (arith, is.linked.1.0, walked),
      record {
        linked =
            Segment-last h1 (some b) b a xs is.distinct.1 out (node-set_next_self h a none) front;
        distinct = AllDistinct-append_one a (b ∷ xs) is.distinct.1 out;
        allocated = rw same (AllBelow-append_one h.fresh a (b ∷ xs) is.allocated.1 is.allocated.0);
        bounded = rw same (omega (arith, is.bounded, length-append {0} xs (a ∷ [])));
      },
      same,
    )

rotations_one : (k a : ℕ) → rotations k (a ∷ []) ≡ a ∷ []
unfolding rotations
rotations_one zero a = refl
rotations_one (suc k) a = rotations_one k a

rotate_once_last : (h : Heap) (a : ℕ) → (h.node a).next ≡ none → rotate_once a h ≡ ok (none, h)
unfolding rotate_once
rotate_once_last h a end = ground arith

pub length-rotations : (k : ℕ) (xs : List ℕ) → length (rotations k xs) ≡ length xs
unfolding rotations
length-rotations zero xs = refl
length-rotations (suc k) [] = length-rotations k []
length-rotations (suc k) (a ∷ xs) =
    length-rotations k (xs ++ a ∷ []) ∙ omega (arith, length-append {0} xs (a ∷ []))

-- The loop of `benchMutateLinks` on a chain with a node: it ends, the list that it leaves is the
-- chain of the same nodes in the order of `rounds` rotations, and its length is as before.
pub rotate_loop-rotations :
    (rounds : ℕ) (h : Heap) (a : ℕ) (xs : List ℕ)
    → IsChain h (some a) (a ∷ xs)
    → (b : ℕ) × (g : Heap) × (rotate_loop rounds a h ≡ ok (b, g))
      × IsChain g (some b) (rotations rounds (a ∷ xs))
unfolding rotate_loop rotations
rotate_loop-rotations zero h a xs is = (a, h, refl, is)
rotate_loop-rotations (suc rounds) h a [] is =
    (a, h, ground (arith, rotate_once_last h a is.linked.1), rw (rotations_one rounds a) is)
rotate_loop-rotations (suc rounds) h a (b ∷ xs) is =
    let (g, run, is', same) = rotate_once-rotate is in
    let (c, k, run', is'') = rotate_loop-rotations rounds g b (xs ++ a ∷ []) is' in
    (c, k, ground (arith, run, run'), is'')
