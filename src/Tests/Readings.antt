-- ===== src/Tests/Readings.antt =====
-- examples/bench/shared-read at three users, and the theorem at that run.
use valk.Prelude.{ℕ, ◌≡◌, refl, List, [], ◌∷◌, arith, ok}
use valk.Prelude.Bytes.{same_bytes}
use valk.Random.{next64}
use valk.Reading.{checksum_line, run}
use valk.Reading.Found.{checksum, run-checksum}

abbrev one_byte : ℕ → List ℕ
one_byte n = n ∷ []

run-two : run one_byte 3 2 ≡ ok (checksum_line 3 2 98)
unfolding run same_bytes next64
run-two = refl

run-checksum_example : run one_byte 3 2 ≡ ok (checksum_line 3 2 (checksum one_byte 3 2))
run-checksum_example = run-checksum one_byte (λ i j same. cc) 3 2 (omega arith)
