-- ===== src/Tests/Chains.antt =====
-- The chains of gc, gc-overhead and objects.
use valk.Prelude.{ℕ, ◌≡◌, none, some, [], ◌∷◌, arith, ok}
use valk.Prelude.Int.{pos}
use valk.Chain.{Heap, chain, rotate_loop}
use valk.Chain.Build.{addresses, chain-IsBuilt}
use valk.Chain.Rotate.{rotations, rotate_loop-rotations}
use valk.Chain.Segments.{IsChain}
use valk.Overhead
use valk.Overhead.{verified_lines, main-verified}
use valk.Gc.{World, build_chain, churn_with_live}
use valk.Gc.Verified.{last_line, verify_ok, churn_with_live-ok, build_chain-ok}

abbrev empty : Heap
empty = record { fresh = 0; node = λ a. record { next = none; payload = 0 } }

abbrev world : World
world = record { heap = empty; sink = none; keep = none }

three-IsChain : IsChain (chain (λ i. 0) (pos 3) empty).1 (some 0) (0 ∷ 1 ∷ 2 ∷ [])
unfolding chain addresses
three-IsChain = (chain-IsBuilt (λ i. 0) (pos 3) empty).chained

rotate_loop-rotations_example :
    (b : ℕ) × (g : Heap) × (rotate_loop 4 0 (chain (λ i. 0) (pos 3) empty).1 ≡ ok (b, g))
    × IsChain g (some b) (rotations 4 (0 ∷ 1 ∷ 2 ∷ []))
rotate_loop-rotations_example =
    rotate_loop-rotations 4 (chain (λ i. 0) (pos 3) empty).1 0 (1 ∷ 2 ∷ []) three-IsChain

churn_with_live-ok_example : last_line (churn_with_live 500 900 7 64 world) ≡ some verify_ok
churn_with_live-ok_example = churn_with_live-ok 500 900 7 64 world (omega arith)

build_chain-ok_example : last_line (build_chain 500 7 64 world) ≡ some verify_ok
build_chain-ok_example = build_chain-ok 500 7 64 world (omega arith)

main-verified_example : Overhead.main "12ms" 12 empty ≡ ok (verified_lines "12ms" 12)
main-verified_example = main-verified "12ms" 12 empty
