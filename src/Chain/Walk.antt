-- ===== src/Chain/Walk.antt =====
-- `lenChain` and `verify` on a chain count its nodes.
use valk.Prelude.{
  ℕ, zero, suc, ◌+◌, ◌-◌, ◌<◌, ◌≡◌, ap, ◌∙◌, none, some, List, [], ◌∷◌, arith, ok, length,
}
use valk.Prelude.Int.{ℤ, pos_part}
use valk.Chain.{Pointer, Heap, chain, create_objects, len_loop, len_chain, verify_loop, verify}
use valk.Chain.Build.{addresses, length-addresses, chain-IsBuilt, create_objects-IsBuilt}
use valk.Chain.Segments.{Segment, IsChain}

len_loop-Segment :
    (fuel : ℕ) (h : Heap) (p : Pointer) (xs : List ℕ) (c : ℕ)
    → Segment h p xs none
    → length xs < fuel
    → len_loop fuel p c h ≡ ok (c + length xs)
unfolding len_loop
len_loop-Segment zero h p xs c s enough = absurd (omega arith)
len_loop-Segment (suc fuel) h p [] c s enough = ground arith
len_loop-Segment (suc fuel) h p (a ∷ xs) c s enough =
    rw s.0
      (len_loop-Segment fuel h (h.node a).next xs (c + 1) s.1 (omega arith) ∙ ap ok (omega arith))

-- `lenChain` of a chain ends and returns its number of nodes.
pub len_chain-IsChain :
    {h : Heap} {p : Pointer} {xs : List ℕ} → IsChain h p xs → len_chain p h ≡ ok (length xs)
unfolding len_chain
len_chain-IsChain {h} {p} {xs} is =
    len_loop-Segment (h.fresh + 1) h p xs 0 is.linked (omega (arith, is.bounded))
    ∙ ap ok zero-add-length
  where
    zero-add-length : 0 + length xs ≡ length xs
    zero-add-length = omega arith

verify_loop-Segment :
    (fuel : ℕ) (h : Heap) (a : ℕ) (xs : List ℕ)
    → Segment h (h.node a).next xs none
    → length xs < fuel
    → verify_loop fuel (some a) h ≡ ok (length xs + 1)
unfolding verify_loop
verify_loop-Segment zero h a xs s enough = absurd (omega arith)
verify_loop-Segment (suc fuel) h a [] s enough = ground arith
verify_loop-Segment (suc fuel) h a (b ∷ xs) s enough =
    ground (arith, verify_loop-Segment fuel h b xs s.1)

-- `verify` of a chain that is not nil ends and returns its number of nodes; of nil it panics.
pub verify-IsChain :
    {h : Heap} {p : Pointer} {a : ℕ} {xs : List ℕ}
    → IsChain h p (a ∷ xs)
    → verify p h ≡ ok (length xs + 1)
unfolding verify
verify-IsChain {h} {a} {xs} is =
    rw is.linked.0
      (verify_loop-Segment (h.fresh + 1) h a xs is.linked.1 (omega (arith, is.bounded)))

-- The self-check of gc: the length of `chain(n)` is n, but 1 where n is 0 or less.
pub len_chain-chain :
    (payload : ℕ → ℕ) (n : ℤ) (h : Heap)
    → len_chain (some (chain payload n h).0) (chain payload n h).1 ≡ ok (suc (pos_part n - 1))
len_chain-chain payload n h =
    len_chain-IsChain (chain-IsBuilt payload n h).chained ∙ ap ok (length-addresses _ h.fresh)

-- The self-check of gc-overhead and objects: `verify` counts one node more than `amount`.
pub verify-create_objects :
    (amount : ℤ) (h : Heap)
    → verify (some (create_objects amount h).0) (create_objects amount h).1
      ≡ ok (pos_part amount + 1)
unfolding addresses
verify-create_objects amount h =
    verify-IsChain (create_objects-IsBuilt amount h).chained
    ∙ ap (λ (n : ℕ). ok (n + 1)) (length-addresses (pos_part amount) (h.fresh + 1))
