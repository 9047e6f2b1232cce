-- ===== src/Tests/Caches.antt =====
-- The cache of examples/bench/lru: two full caches, and the theorems about them.
use valk.Prelude.{ℕ, ◌+◌, ◌≡◌, refl, [], ◌∷◌, true, arith, ok, panic}
use valk.Prelude.Int.{pos}
use valk.Lru.{Cache, map_get, find, get, put, new_lru}
use valk.Lru.Abstract.{after_get, get_result, after_put, pairs_of}
use valk.Lru.Main.{key_range, mod32, run}
use valk.Lru.Main.Hits.{ideal_hits, run-ideal_hits}
use valk.Lru.Reads.{get-put, put_panics}
use valk.Lru.Refines.{get-after_get, put-after_put, new_lru-IsValid}
use valk.Lru.Valid.{IsValid}
use valk.Random.{next32}

-- Two pairs at size 2: the next new key evicts key 7.
abbrev full : Cache
full = record {
  size = pos 2;
  keys = (7, 0) ∷ (9, 1) ∷ [];
  entries = record { id = 0; key = 7; value = 70 } ∷ record { id = 1; key = 9; value = 90 } ∷ [];
  fresh = 2;
}

full-IsValid : IsValid full
unfolding map_get find
full-IsValid = record {
  agree = λ k. ground arith;
  ids = ground arith;
  names = ground arith;
  unused = λ i h. ground arith;
  bounded = λ n h. ground arith;
}

put_evicts :
    put full 5 50
    ≡ ok (record {
      size = pos 2;
      keys = (9, 1) ∷ (5, 0) ∷ [];
      entries =
          record { id = 1; key = 9; value = 90 } ∷ record { id = 0; key = 5; value = 50 } ∷ [];
      fresh = 2;
    })
unfolding put find
put_evicts = refl

put-after_put_example :
    (c : Cache) × (put full 5 50 ≡ ok c)
    × IsValid c
    × (pairs_of c.entries ≡ after_put (pos 2) 5 50 (pairs_of full.entries))
    × (c.size ≡ pos 2)
put-after_put_example = put-after_put full 5 full-IsValid 50 (λ e. cc)

get-after_get_example :
    (c : Cache) × (get full 7 ≡ ok (c, get_result 7 (pairs_of full.entries)))
    × IsValid c
    × (pairs_of c.entries ≡ after_get 7 (pairs_of full.entries))
    × (c.size ≡ pos 2)
get-after_get_example = get-after_get full 7 full-IsValid

get-put_example :
    (c : Cache) × (d : Cache) × (put full 5 50 ≡ ok c) × (get c 5 ≡ ok (d, (50, true)))
get-put_example = get-put full 5 50 full-IsValid (λ e. cc)

put_panics_example : put (new_lru (pos 0)) 3 4 ≡ panic
unfolding new_lru
put_panics_example = put_panics (new_lru (pos 0)) 3 4 (new_lru-IsValid (pos 0)) refl

run_hundred : run (pos 16) (pos 100) ≡ ok (12, 88)
unfolding run mod32 key_range put get new_lru next32 find
run_hundred = refl

run-ideal_hits_example :
    (h : ℕ) × (m : ℕ) × (run (pos 2) (pos 20) ≡ ok (h, m))
    × (h ≡ ideal_hits 20 (pos 2) (key_range (pos 2)) 0 1 [])
    × (h + m ≡ 20)
unfolding key_range
run-ideal_hits_example = run-ideal_hits (pos 2) (pos 20) (λ e. cc) (omega arith)
