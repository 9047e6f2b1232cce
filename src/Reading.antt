-- ===== src/Reading.antt =====
-- examples/bench/shared-read/main.go: four goroutines that only read one map of users, each with its
-- own state and its own element of the results, so that they are run one after the other here. Strings
-- are lists of bytes; `format_uint` is `strconv.FormatUint` in base 10, `parse_uint` is
-- `strconv.ParseUint` on 64 bits, its error ignored.
pub mod Found
use Prim.Native.String.{String}
use valk.Prelude.{
  ℕ, zero, suc, ◌+◌, ◌*◌, ◌%◌, ◌^◌, Option, none, some, List, [], ◌∷◌, ◌++◌, Bool, true, false,
  Result, ok, panic, ◌>>=◌, length, get_or, ◌==◌, if◌then◌else◌,
}
use valk.Prelude.Bytes.{same_bytes}
use valk.Prelude.Int.{pos, add64}
use valk.Prelude.Output.{int, Line, printf}
use valk.Random.{next64}

pub record User : Type 0 where
  pub id : ℕ
  pub name : List ℕ
  pub tags : List (List ℕ)
  pub score : ℕ

pub record Hit : Type 0 where
  pub id : ℕ
  pub score : ℕ

-- The bytes of "user" and of "tag".
abbrev pub user_prefix : List ℕ
user_prefix = 117 ∷ 115 ∷ 101 ∷ 114 ∷ []

abbrev tag_prefix : List ℕ
tag_prefix = 116 ∷ 97 ∷ 103 ∷ []

abbrev pub Users : Type 0
Users = List (List ℕ × User)

-- `users[name]`: nil for a missing key.
unfoldable pub find_user : List ℕ → Users → Option User
find_user name [] = none
find_user name ((k, u) ∷ users) = if same_bytes k name then some u else find_user name users

unfoldable pub set_user : List ℕ → User → Users → Users
set_user name user [] = (name, user) ∷ []
set_user name user ((k, u) ∷ users) =
    if same_bytes k name then (k, user) ∷ users else (k, u) ∷ set_user name user users

module _ (format_uint : ℕ → List ℕ) where
  unfoldable pub name_of : ℕ → List ℕ
  name_of i = user_prefix ++ format_uint i

  -- The user that round `i` of `build` stores.
  unfoldable pub user_of : ℕ → User
  unfolding name_of
  user_of i = record {
    id = i;
    name = name_of i;
    tags = (tag_prefix ++ format_uint (i % 7)) ∷ (tag_prefix ++ format_uint (i % 13)) ∷ [];
    score = i * 7 % 2 ^ 64 % 1000;
  }

  -- The loop of `build`, on the rounds left.
  unfoldable pub build_loop : ℕ → ℕ → Users → Users
  unfolding set_user user_of
  build_loop zero i users = users
  build_loop (suc n) i users = build_loop n (i + 1) (set_user (name_of i) (user_of i) users)

  unfoldable pub build : ℕ → Users
  unfolding build_loop
  build count = build_loop count 0 []

  unfoldable pub names_loop : ℕ → ℕ → List (List ℕ) → List (List ℕ)
  unfolding name_of
  names_loop zero i result = result
  names_loop (suc n) i result = names_loop n (i + 1) (result ++ name_of i ∷ [])

  unfoldable pub names : ℕ → List (List ℕ)
  unfolding names_loop
  names count = names_loop count 0 []

-- What a lookup adds to the total.
abbrev pub weight : User → ℕ → ℕ
weight user total =
    add64 total (((user.score + length user.name) % 2 ^ 64 + length user.tags) % 2 ^ 64)

-- `hits` after a lookup: it starts again at 1000 hits.
unfoldable pub add_hit : User → List Hit → List Hit
add_hit user hits =
    let hits' = hits ++ record { id = user.id; score = user.score } ∷ [] in
    if length hits' == 1000 then [] else hits'

-- The loop of `work`, on the lookups left: a nil user panics, and so does the remainder by 0.
unfoldable pub work_loop : Users → List (List ℕ) → ℕ → ℕ → ℕ → List Hit → Result (ℕ × List Hit)
unfolding find_user add_hit
work_loop users keys zero r total hits = ok (total, hits)
work_loop users keys (suc n) r total hits =
    let r' = next64 r in
    if length keys == 0 then panic else elim (find_user (get_or keys (r' % length keys) []) users) [
      | none ↦ panic
      | some user ↦ work_loop users keys n r' (weight user total) (add_hit user hits)
    ]

unfoldable pub work : Users → List (List ℕ) → (seed lookups : ℕ) → Result ℕ
unfolding work_loop
work users keys seed lookups = do (total, hits) ← work_loop users keys lookups seed 0 []; ok total

-- The goroutines from number `t` on, with the sum of their results.
unfoldable pub add_results : Users → List (List ℕ) → (lookups left t total : ℕ) → Result ℕ
unfolding work
add_results users keys lookups zero t total = ok total
add_results users keys lookups (suc left) t total = do
  result ← work users keys (t + 1) lookups
  add_results users keys lookups left (t + 1) (add64 total result)

abbrev pub checksum_line : (count lookups total : ℕ) → Line
checksum_line count lookups total =
    printf "users: %d, lookups: %d, checksum: %d\n"
      (int (pos count) ∷ int (pos (lookups * 4 % 2 ^ 64)) ∷ int (pos total) ∷ [])

unfoldable pub run : (ℕ → List ℕ) → (count lookups : ℕ) → Result Line
unfolding build names add_results
run format_uint count lookups = do
  total ← add_results (build format_uint count) (names format_uint count) lookups 4 0 0
  ok (checksum_line count lookups total)

-- The arguments, or 200000 and 5000000.
unfoldable pub parse_args : (String → ℕ) → List String → ℕ × ℕ
parse_args parse_uint (program ∷ a ∷ b ∷ rest) = (parse_uint a, parse_uint b)
parse_args parse_uint (program ∷ a ∷ []) = (parse_uint a, 5000000)
parse_args parse_uint _ = (200000, 5000000)

unfoldable pub main : (String → ℕ) → (ℕ → List ℕ) → List String → Result Line
unfolding run parse_args
main parse_uint format_uint args =
    let parsed = parse_args parse_uint args in run format_uint parsed.0 parsed.1
