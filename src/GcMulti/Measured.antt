-- ===== src/GcMulti/Measured.antt =====
-- `benchPauseProxy`, `benchLiveNatural` and `printGCStats` of examples/bench/gc-multi/main.go: the loop
-- over the batches ends, the live chain is whole, and the greatest pause is found.
use valk.Prelude.{
  ℕ, zero, suc, ◌+◌, ◌-◌, ◌*◌, ◌%◌, ◌≤◌, ◌<◌, ◌≡◌, refl, ap, ◌∙◌, ◌⊎◌, inl, inr, some, arith, ok,
  ltb, ◌==◌, if◌then◌else◌, Bool-cases,
}
use valk.Prelude.Int.{pos}
use valk.Chain.{len_chain}
use valk.Chain.Build.{length-addresses, chain-IsBuilt}
use valk.Chain.Segments.{IsChain-grown}
use valk.Chain.Walk.{len_chain-IsChain}
use valk.GcMulti.{
  Memory, heap_node, new_chain, churn_up, churn_down, Pauses, add_batch, pause_loop, pause_proxy,
  pause_proxy_lines, Stats, live_natural, live_natural_lines, max_loop, max_pause,
}

-- Memory `m'` has grown from `m`, and the older nodes are as before.
abbrev pub Grown : Memory → Memory → Type 0
Grown m m' =
    (m.heap.fresh ≤ m'.heap.fresh) × ((a : ℕ) → a < m.heap.fresh → m'.heap.node a ≡ m.heap.node a)

heap_node-Grown : (p : ℕ) (m : Memory) → Grown m (heap_node p m).1
unfolding heap_node
heap_node-Grown p m = (omega arith, λ a lt. ground arith)

Grown-trans : (a b c : Memory) → Grown a b → Grown b c → Grown a c
Grown-trans a b c g h = (omega (arith, g.0, h.0), λ n lt. h.1 n (omega (arith, g.0)) ∙ g.1 n lt)

churn_up-Grown : (left i : ℕ) (m : Memory) → Grown m (churn_up left i m)
unfolding churn_up
churn_up-Grown zero i m = (omega arith, λ a lt. refl)
churn_up-Grown (suc left) i m =
    Grown-trans m (heap_node i m).1 (churn_up left (i + 1) (heap_node i m).1) (heap_node-Grown i m)
      (churn_up-Grown left (i + 1) (heap_node i m).1)

churn_down-Grown : (k : ℕ) (m : Memory) → Grown m (churn_down k m)
unfolding churn_down
churn_down-Grown zero m = (omega arith, λ a lt. refl)
churn_down-Grown (suc k) m =
    Grown-trans m (heap_node (suc k) m).1 (churn_down k (heap_node (suc k) m).1)
      (heap_node-Grown (suc k) m) (churn_down-Grown k (heap_node (suc k) m).1)

-- The chain that a benchmark starts with has its length after any allocations.
len_chain-Grown :
    (n : ℕ) (m m' : Memory)
    → 1 ≤ n
    → Grown (new_chain n m).1 m'
    → len_chain (some (new_chain n m).0) m'.heap ≡ ok n
unfolding new_chain
len_chain-Grown zero m m' h g = absurd (omega arith)
len_chain-Grown (suc n) m m' h g =
    let same : suc (suc n - 1) ≡ suc n = omega arith in
    let built = chain-IsBuilt (λ i. i) (pos (suc n)) m.heap in
    len_chain-IsChain (IsChain-grown (new_chain (suc n) m).1.heap m'.heap built.chained g.0 g.1)
    ∙ ap ok (length-addresses _ m.heap.fresh ∙ same)

-- After the loop: as many batches as cover the total, the greatest time of a batch (0 for none) and
-- the sum of the times.
unfoldable pub sum_upto : (ℕ → ℕ) → ℕ → ℕ
sum_upto f zero = 0
sum_upto f (suc n) = sum_upto f n + f n

pub record IsMeasured (batch_us : ℕ → ℕ) (p : Pauses) : Type 0 where
  pub above : (i : ℕ) → i < p.batches → batch_us i ≤ p.max_us
  pub attained : (p.max_us ≡ 0) ⊎ ((i : ℕ) × (i < p.batches) × (batch_us i ≡ p.max_us))
  pub sum : p.sum_us ≡ sum_upto batch_us p.batches

add_batch-IsMeasured :
    (batch_us : ℕ → ℕ) (p : Pauses)
    → IsMeasured batch_us p
    → IsMeasured batch_us (add_batch (batch_us p.batches) p)
unfolding add_batch sum_upto
add_batch-IsMeasured batch_us p is =
    let next : p.batches + 1 ≡ suc p.batches = omega arith in
    record {
      above = λ i lt. elim (Bool-cases (i == p.batches)) [
        | inl at ↦ let same : i ≡ p.batches = ground arith in rw (same) (ground arith)
        | inr other ↦ let a = is.above i (ground arith) in ground arith
      ];
      attained = elim (Bool-cases (ltb p.max_us (batch_us p.batches))) [
        | inl l ↦ inr (p.batches, omega arith, rw (l) refl)
        | inr l ↦ elim is.attained [
          | inl none_yet ↦ inl (rw (l) none_yet)
          | inr (i, lt, e) ↦ inr (i, omega arith, rw (l) e)
        ]
      ];
      sum = rw (next) (omega (arith, is.sum));
    }

-- The loop ends with batches that cover the total and no more, on a memory that has grown.
pause_loop-IsMeasured :
    (batch_us : ℕ → ℕ) (total batch fuel done : ℕ) (p : Pauses) (m : Memory)
    → 0 < batch
    → total - done < fuel
    → done ≡ p.batches * batch
    → done < total + batch
    → IsMeasured batch_us p
    → (p' : Pauses) × (m' : Memory) × (pause_loop batch_us total batch fuel done p m ≡ ok (p', m'))
      × (total ≤ p'.batches * batch)
      × (p'.batches * batch < total + batch)
      × IsMeasured batch_us p'
      × Grown m m'
unfolding pause_loop
pause_loop-IsMeasured batch_us total batch zero done p m h enough at below is = absurd (omega arith)
pause_loop-IsMeasured batch_us total batch (suc fuel) done p m h enough at below is =
    elim (Bool-cases (ltb done total)) [
      | inr end ↦ (
        p,
        m,
        rw (pause_loop, end) refl,
        ground arith,
        omega arith,
        is,
        (omega arith, λ a lt. refl),
      )
      | inl more ↦
          let next : done + batch ≡ (p.batches + 1) * batch = grind arith in
          let (p', m', run, covers, tight, is', grown) =
            pause_loop-IsMeasured batch_us total batch fuel (done + batch)
              (add_batch (batch_us p.batches) p) (churn_up batch 0 m) h (ground arith) next
              (ground arith) (add_batch-IsMeasured batch_us p is) in
          (
            p',
            m',
            rw (pause_loop, more) run,
            covers,
            tight,
            is',
            Grown-trans m (churn_up batch 0 m) m' (churn_up-Grown batch 0 m) grown,
          )
    ]

-- For a chain of one node or more and batches of one allocation or more: the loop over the batches
-- ends, with as many batches as cover the total and no more; what is printed as the maximum and as the
-- average comes from the greatest time of a batch and the sum of all; and the live chain is whole.
pub pause_proxy-IsMeasured :
    (live total batch : ℕ) (batch_us : ℕ → ℕ) (s : Stats) (m : Memory)
    → 1 ≤ live
    → 0 < batch
    → (p : Pauses) × (m' : Memory) × (pause_proxy live total batch batch_us s m
        ≡ ok (pause_proxy_lines live total batch p live s, m'))
      × (total ≤ p.batches * batch)
      × (p.batches * batch < total + batch)
      × IsMeasured batch_us p
unfolding pause_proxy sum_upto
pause_proxy-IsMeasured live total batch batch_us s m h h' =
    let nothing : IsMeasured batch_us (record { max_us = 0; sum_us = 0; batches = 0 }) = record {
      above = λ i lt. absurd (omega arith);
      attained = inl refl;
      sum = refl;
    } in
    let (p, m', run, covers, tight, is, grown) =
      pause_loop-IsMeasured batch_us total batch (total + 1) 0
        (record { max_us = 0; sum_us = 0; batches = 0 }) (new_chain live m).1 h' (omega arith)
        (omega arith) (omega arith) nothing in
    (p, m', rw (pause_proxy, run, len_chain-Grown live m m' h grown) refl, covers, tight, is)

-- `benchLiveNatural`: the live chain is whole after the churn.
pub live_natural-live :
    (live churn : ℕ) (s : Stats) (m : Memory)
    → 1 ≤ live
    → (m' : Memory) × (live_natural live churn s m ≡ ok (live_natural_lines live churn live s, m'))
unfolding live_natural
live_natural-live live churn s m h =
    let m' = churn_down churn (new_chain live m).1 in
    (
      m',
      rw (live_natural, len_chain-Grown live m m' h (churn_down-Grown churn (new_chain live m).1))
          refl,
    )

-- The value is the greatest of `max` and the pauses of rounds `i` to `i + n - 1`.
abbrev Greatest : (ℕ → ℕ) → (num_gc n i max value : ℕ) → Type 0
Greatest pause_ns num_gc n i max value =
    (max ≤ value)
    × ((k : ℕ) → i ≤ k → k < i + n → pause_ns ((num_gc - 1 - k) % 256) ≤ value)
    × ((value ≡ max)
        ⊎ ((k : ℕ) × (i ≤ k) × (k < i + n) × (pause_ns ((num_gc - 1 - k) % 256) ≡ value)))

-- A first round that leaves the greater of `max` and its pause.
Greatest-suc :
    (pause_ns : ℕ → ℕ) (num_gc n i max value : ℕ)
    → let pause = pause_ns ((num_gc - 1 - i) % 256) in
      Greatest pause_ns num_gc n (i + 1) (if ltb max pause then pause else max) value
      → Greatest pause_ns num_gc (suc n) i max value
Greatest-suc pause_ns num_gc n i max value (grows, above, attained) = (
  ground arith,
  λ k from to. elim (Bool-cases (k == i)) [
    | inl at ↦ let same : k ≡ i = ground arith in rw (same) (ground arith)
    | inr other ↦ above k (ground arith) (omega arith)
  ],
  elim attained [
    | inr (k, from, to, e) ↦ inr (k, omega arith, omega arith, e)
    | inl e ↦ elim (Bool-cases (ltb max (pause_ns ((num_gc - 1 - i) % 256)))) [
      | inl l ↦ inr (i, omega arith, omega arith, ground arith)
      | inr l ↦ inl (ground arith)
    ]
  ],
)

max_loop-Greatest :
    (pause_ns : ℕ → ℕ) (num_gc n i max : ℕ)
    → Greatest pause_ns num_gc n i max (max_loop pause_ns num_gc n i max)
unfolding max_loop
max_loop-Greatest pause_ns num_gc zero i max =
    (omega arith, λ k from to. absurd (omega arith), inl refl)
max_loop-Greatest pause_ns num_gc (suc n) i max =
    let pause = pause_ns ((num_gc - 1 - i) % 256) in
    Greatest-suc pause_ns num_gc n i max _
      (max_loop-Greatest pause_ns num_gc n (i + 1) (if ltb max pause then pause else max))

-- The round in which the loop looks at entry `j` of the ring, and the entry of a round.
ring_round :
    (num_gc j : ℕ)
    → j < 256
    → j < num_gc
    → ((num_gc - 1 - j) % 256 < (if ltb 256 num_gc then 256 else num_gc))
      × ((num_gc - 1 - (num_gc - 1 - j) % 256) % 256 ≡ j)
ring_round num_gc j h used = elim (Bool-cases (ltb 256 num_gc)) [
  | inl full ↦ rw (full) (omega arith, omega arith)
  | inr some_used ↦
      let few : num_gc ≤ 256 = ground arith in rw (some_used) (omega arith, omega arith)
]

ring_entry :
    (num_gc k : ℕ) → k < (if ltb 256 num_gc then 256 else num_gc) → (num_gc - 1 - k) % 256 < num_gc
ring_entry num_gc k h = let used : k < num_gc = ground arith in omega arith

-- `max` of `printGCStats` is at least every pause that the ring of 256 holds, and it is one of them,
-- or 0.
pub max_pause-greatest :
    (s : Stats)
    → ((j : ℕ) → j < 256 → j < s.num_gc → s.pause_ns j ≤ max_pause s)
      × ((max_pause s ≡ 0) ⊎ ((j : ℕ) × (j < 256) × (j < s.num_gc) × (s.pause_ns j ≡ max_pause s)))
unfolding max_pause
max_pause-greatest s =
    let n = if ltb 256 s.num_gc then 256 else s.num_gc in
    let (grows, above, attained) = max_loop-Greatest s.pause_ns s.num_gc n 0 0 in
    (
      λ j lt used.
          let (in_loop, back) = ring_round s.num_gc j lt used in
          rw back at (above ((s.num_gc - 1 - j) % 256) (omega arith) (omega (arith, in_loop))),
      elim attained [
        | inl e ↦ inl e
        | inr (k, from, to, e) ↦
            inr
              ((s.num_gc - 1 - k) % 256, omega arith, ring_entry s.num_gc k (omega (arith, to)), e)
      ],
    )
