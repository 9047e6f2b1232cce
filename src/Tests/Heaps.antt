-- ===== src/Tests/Heaps.antt =====
-- lib/src/core/heap.valk on small heaps of numbers, the smallest first.
use mathlib.Core.List.{Perm}
use valk.Prelude.{
  ℕ, ◌≡◌, refl, ◌⊎◌, none, some, List, [], ◌∷◌, ◌++◌, Bool, true, false, not, arith, ok, ltb,
  not-true,
}
use valk.Prelude.Tables.{holds_below, holds_at}
use valk.Heap.{parent, at, push, pop, replace, drain}
use valk.Heap.Order.{IsOrder, IsHeap}
use valk.Heap.Least.{IsLeast, IsSorted}
use valk.Heap.Replaced.{replace-IsLeast}
use valk.Heap.Queue.{push-IsHeap, pop-IsLeast, drain-IsSorted}

smaller-IsOrder : IsOrder ltb
smaller-IsOrder = record { one_way = λ a b h. ground arith; transitive = λ a b c h k. ground arith }

abbrev heap : List ℕ
heap = 1 ∷ 3 ∷ 2 ∷ 7 ∷ 4 ∷ []

abbrev in_order : ℕ → Bool
in_order c = not (ltb (at 0 heap c) (at 0 heap (parent c)))

heap-IsHeap : IsHeap 0 ltb heap
unfolding holds_below
heap-IsHeap c one lt = not-true _ (holds_at 5 in_order refl c lt)

push-IsHeap_example :
    (r : List ℕ) × (push 0 ltb true heap 0 ≡ ok r) × IsHeap 0 ltb r × Perm r (heap ++ 0 ∷ [])
push-IsHeap_example = push-IsHeap 0 ltb smaller-IsOrder true heap 0 heap-IsHeap

pop-IsLeast_example :
    ((heap ≡ []) × (pop 0 ltb false heap ≡ ok (none, [])))
    ⊎ ((first : ℕ) × (rest : List ℕ) × (pop 0 ltb false heap ≡ ok (some first, rest))
        × IsHeap 0 ltb rest
        × Perm (first ∷ rest) heap
        × IsLeast 0 ltb first rest)
pop-IsLeast_example = pop-IsLeast 0 ltb smaller-IsOrder false heap heap-IsHeap

replace-IsLeast_example :
    (first : ℕ) × (rest : List ℕ) × (replace 0 ltb true heap 5 ≡ ok (some first, rest))
    × IsHeap 0 ltb rest
    × Perm (first ∷ rest) (5 ∷ heap)
    × IsLeast 0 ltb first rest
replace-IsLeast_example =
    replace-IsLeast 0 ltb smaller-IsOrder true heap 5 heap-IsHeap (omega arith)

replaced : replace 0 ltb true heap 5 ≡ ok (some 1, 2 ∷ 3 ∷ 5 ∷ 7 ∷ 4 ∷ [])
unfolding replace
replaced = refl

replaced_plain : replace 0 ltb false heap 5 ≡ ok (some 1, 2 ∷ 3 ∷ 5 ∷ 7 ∷ 4 ∷ [])
unfolding replace
replaced_plain = refl

drain-IsSorted_example :
    (out : List ℕ) × (drain 0 ltb true heap ≡ ok (out, [])) × IsSorted 0 ltb out × Perm out heap
drain-IsSorted_example = drain-IsSorted 0 ltb smaller-IsOrder true heap heap-IsHeap

pushed : push 0 ltb false heap 0 ≡ ok (0 ∷ 3 ∷ 1 ∷ 7 ∷ 4 ∷ 2 ∷ [])
unfolding push
pushed = refl

popped : pop 0 ltb true heap ≡ ok (some 1, 2 ∷ 3 ∷ 4 ∷ 7 ∷ [])
unfolding pop
popped = refl

drained : drain 0 ltb false heap ≡ ok (1 ∷ 2 ∷ 3 ∷ 4 ∷ 7 ∷ [], [])
unfolding drain
drained = refl
