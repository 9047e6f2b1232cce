-- ===== src/Reading/Found.antt =====
-- Every lookup of examples/bench/shared-read/main.go finds a user, and the checksum is the sum of
-- what the picked users weigh.
use valk.Prelude.{
  ℕ, zero, suc, ◌+◌, ◌%◌, ◌≤◌, ◌<◌, ◌≡◌, refl, ◌∙◌, ap, ◌≢◌, inl, inr, some, List, [], ◌∷◌, ◌++◌,
  true, false, arith, ok, length, length-append, get_or, ◌==◌, Bool-cases,
}
use valk.Prelude.Bytes.{same_bytes, same_bytes_iff}
use valk.Prelude.Int.{add64}
use valk.Random.{next64}
use valk.Reading.{
  user_prefix, User, Hit, Users, find_user, set_user, name_of, user_of, build_loop, build,
  names_loop, names, weight, add_hit, work_loop, work, checksum_line, run,
}

same_bytes_self : (xs : List ℕ) → same_bytes xs xs ≡ true
same_bytes_self xs = (same_bytes_iff xs xs).1 refl

same_bytes_other : (xs ys : List ℕ) → xs ≢ ys → same_bytes xs ys ≡ false
same_bytes_other xs ys ne = elim (Bool-cases (same_bytes xs ys)) [
  | inl same ↦ absurd (ne ((same_bytes_iff xs ys).0 same))
  | inr other ↦ other
]

find_user-set_user :
    (name : List ℕ) (user : User) (users : Users)
    → find_user name (set_user name user users) ≡ some user
unfolding find_user set_user
find_user-set_user name user [] = rw (same_bytes_self name) refl
find_user-set_user name user ((k, u) ∷ users) = elim (Bool-cases (same_bytes k name)) [
  | inl same ↦ rw (set_user, same, find_user, same) refl
  | inr other ↦ rw (set_user, other, find_user, other) (find_user-set_user name user users)
]

find_user-set_other :
    (name key : List ℕ) (user : User) (users : Users)
    → key ≢ name
    → find_user name (set_user key user users) ≡ find_user name users
unfolding find_user set_user
find_user-set_other name key user [] ne = rw (same_bytes_other key name ne) refl
find_user-set_other name key user ((k, u) ∷ users) ne = elim (Bool-cases (same_bytes k key)) [
  | inl same ↦
      let e = (same_bytes_iff k key).0 same in
      let other : same_bytes k name ≡ false = rw (e) (same_bytes_other key name ne) in
      rw (set_user, same, find_user, other) refl
  | inr n ↦
      let rest = find_user-set_other name key user users ne in
      rw (set_user, n, find_user, rest) refl
]

append_prefix : (xs ys zs : List ℕ) → xs ++ ys ≡ xs ++ zs → ys ≡ zs
append_prefix [] ys zs e = e
append_prefix (x ∷ xs) ys zs e = append_prefix xs ys zs cc

get_or-append_old :
    {A : Type 0} (xs : List A) (x : A) (k : ℕ) (d : A)
    → k < length xs
    → get_or (xs ++ x ∷ []) k d ≡ get_or xs k d
get_or-append_old [] x k d lt = absurd (omega arith)
get_or-append_old (y ∷ xs) x zero d lt = refl
get_or-append_old (y ∷ xs) x (suc k) d lt = get_or-append_old xs x k d (omega arith)

get_or-append_at :
    {A : Type 0} (xs : List A) (x : A) (k : ℕ) (d : A)
    → length xs ≡ k
    → get_or (xs ++ x ∷ []) k d ≡ x
get_or-append_at [] x zero d e = refl
get_or-append_at [] x (suc k) d e = absurd (omega arith)
get_or-append_at (y ∷ xs) x zero d e = absurd (omega arith)
get_or-append_at (y ∷ xs) x (suc k) d e = get_or-append_at xs x k d (omega arith)

-- The buffer of hits never holds 1000 of them for long.
add_hit_few :
    (user : User) (hits : List Hit) → length hits < 1000 → length (add_hit user hits) < 1000
unfolding add_hit
add_hit_few user hits few =
    let hit : Hit = record { id = user.id; score = user.score } in
    let one = length-append hits (hit ∷ []) in
    elim (Bool-cases (length (hits ++ hit ∷ []) == 1000)) [
      | inl full ↦ rw (full) (omega arith)
      | inr room ↦ rw (room) (ground arith)
    ]

work_loop_step :
    (users : Users) (keys : List (List ℕ)) (n r total : ℕ) (hits : List Hit) (user : User)
    → (length keys == 0) ≡ false
    → find_user (get_or keys (next64 r % length keys) []) users ≡ some user
    → work_loop users keys (suc n) r total hits
      ≡ work_loop users keys n (next64 r) (weight user total) (add_hit user hits)
unfolding work_loop
work_loop_step users keys n r total hits user busy there = rw (work_loop, busy, there) refl

module _ (format_uint : ℕ → List ℕ) where
  -- What `lookups` rounds of a stream of picks weigh, each by the user that it picks.
  unfoldable pub picked : (count lookups r total : ℕ) → ℕ
  picked count zero r total = total
  picked count (suc n) r total =
      let r' = next64 r in picked count n r' (weight (user_of format_uint (r' % count)) total)

  -- The sum of the results of the four streams.
  unfoldable pub checksum : (count lookups : ℕ) → ℕ
  unfolding picked
  checksum count lookups =
      add64
        (add64 (add64 (add64 0 (picked count lookups 1 0)) (picked count lookups 2 0))
          (picked count lookups 3 0))
        (picked count lookups 4 0)

module _ (format_uint : ℕ → List ℕ)
    (distinct : (i j : ℕ) → format_uint i ≡ format_uint j → i ≡ j) where
  name_of_other : (i j : ℕ) → i ≢ j → name_of format_uint i ≢ name_of format_uint j
  unfolding name_of
  name_of_other i j ne e = ne (distinct i j (append_prefix user_prefix _ _ e))

  build_loop_old :
      (n i j : ℕ) (users : Users)
      → j < i
      → find_user (name_of format_uint j) (build_loop format_uint n i users)
        ≡ find_user (name_of format_uint j) users
  unfolding build_loop
  build_loop_old zero i j users lt = refl
  build_loop_old (suc n) i j users lt =
      build_loop_old n (i + 1) j _ (omega arith)
      ∙ find_user-set_other _ _ _ users (name_of_other i j (λ e. omega arith))

  build_loop_new :
      (n i j : ℕ) (users : Users)
      → i ≤ j
      → j < i + n
      → find_user (name_of format_uint j) (build_loop format_uint n i users)
        ≡ some (user_of format_uint j)
  unfolding build_loop
  build_loop_new zero i j users le lt = absurd (omega arith)
  build_loop_new (suc n) i j users le lt = elim (Bool-cases (i == j)) [
    | inl at ↦
        let e : i ≡ j = ground arith in
        build_loop_old n (i + 1) j _ (omega arith)
        ∙ rw (e) (find_user-set_user (name_of format_uint j) (user_of format_uint j) users)
    | inr other ↦ build_loop_new n (i + 1) j _ (ground arith) (omega arith)
  ]

  -- `build` stores every user under its name.
  find_user-build :
      (count j : ℕ)
      → j < count
      → find_user (name_of format_uint j) (build format_uint count) ≡ some (user_of format_uint j)
  unfolding build
  find_user-build count j lt = build_loop_new count 0 j [] (omega arith) (omega arith)

  names_loop-length :
      (n i : ℕ) (result : List (List ℕ))
      → length (names_loop format_uint n i result) ≡ length result + n
  unfolding names_loop
  names_loop-length zero i result = omega arith
  names_loop-length (suc n) i result = omega (
    arith,
    names_loop-length n (i + 1) (result ++ name_of format_uint i ∷ []),
    length-append result (name_of format_uint i ∷ []),
  )

  names_loop_old :
      (n i : ℕ) (result : List (List ℕ)) (k : ℕ)
      → k < length result
      → get_or (names_loop format_uint n i result) k [] ≡ get_or result k []
  unfolding names_loop
  names_loop_old zero i result k lt = refl
  names_loop_old (suc n) i result k lt =
      let one = length-append result (name_of format_uint i ∷ []) in
      names_loop_old n (i + 1) (result ++ name_of format_uint i ∷ []) k (omega arith)
      ∙ get_or-append_old result (name_of format_uint i) k [] lt

  names_loop_new :
      (n i : ℕ) (result : List (List ℕ)) (k : ℕ)
      → length result ≡ i
      → i ≤ k
      → k < i + n
      → get_or (names_loop format_uint n i result) k [] ≡ name_of format_uint k
  unfolding names_loop
  names_loop_new zero i result k at le lt = absurd (omega arith)
  names_loop_new (suc n) i result k at le lt =
      let result' = result ++ name_of format_uint i ∷ [] in
      let one = length-append result (name_of format_uint i ∷ []) in
      elim (Bool-cases (i == k)) [
        | inl here ↦
            let e : i ≡ k = ground arith in
            let d : length result ≡ k = omega arith in
            names_loop_old n (i + 1) result' k (omega arith)
            ∙ get_or-append_at result (name_of format_uint i) k [] d
            ∙ ap (name_of format_uint) e
        | inr other ↦ names_loop_new n (i + 1) result' k (omega arith) (ground arith) (omega arith)
      ]

  -- No lookup is of a missing key, whatever was read before.
  work_loop-picked :
      (count : ℕ)
      → 0 < count
      → (n r total : ℕ) (hits : List Hit) → length hits < 1000
      → (hits' : List Hit) × (length hits' < 1000)
        × (work_loop (build format_uint count) (names format_uint count) n r total hits
            ≡ ok (picked format_uint count n r total, hits'))
  unfolding work_loop picked names
  work_loop-picked count h zero r total hits few = (hits, few, refl)
  work_loop-picked count h (suc n) r total hits few =
      let r' = next64 r in
      let users = build format_uint count in
      let keys = names format_uint count in
      let len : length keys ≡ count = omega (arith, names_loop-length count 0 []) in
      let busy : (length keys == 0) ≡ false = ground (arith, len) in
      let key = names_loop_new count 0 [] (r' % count) refl (omega arith) (grind arith) in
      let found = find_user-build count (r' % count) (grind arith) in
      let user = user_of format_uint (r' % count) in
      let there : find_user (get_or keys (r' % length keys) []) users ≡ some user =
        ap (λ m. find_user (get_or keys (r' % m) []) users) len
        ∙ ap (λ name. find_user name users) key
        ∙ found in
      let (hits', few', rest) =
        work_loop-picked count h n r' (weight user total) (add_hit user hits)
          (add_hit_few user hits few) in
      (hits', few', work_loop_step users keys n r total hits user busy there ∙ rest)

  work-picked :
      (count seed lookups : ℕ)
      → 0 < count
      → work (build format_uint count) (names format_uint count) seed lookups
        ≡ ok (picked format_uint count lookups seed 0)
  unfolding work
  work-picked count seed lookups h =
      let (hits, few, run) = work_loop-picked count h lookups seed 0 [] (omega arith) in
      rw (work, run) refl

  -- For names of numbers that differ where the numbers do, and one user or more: no goroutine ever
  -- reads a missing user, and what is printed is the sum, over the picks of the four streams, of the
  -- score, the length of the name and the number of tags of the user that each pick stands for.
  pub run-checksum :
      (count lookups : ℕ)
      → 0 < count
      → run format_uint count lookups
        ≡ ok (checksum_line count lookups (checksum format_uint count lookups))
  unfolding run checksum
  run-checksum count lookups h =
      rw
        (
          run,
          work-picked count 1 lookups h,
          work-picked count 2 lookups h,
          work-picked count 3 lookups h,
          work-picked count 4 lookups h,
        )
        refl
