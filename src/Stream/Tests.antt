-- ===== src/Stream/Tests.antt =====
-- Bodies of a few bytes under limits of two to four.
use domain_status.Common.{
  ℕ, ◌<◌, ◌≤◌, ◌≡◌, refl, [], ◌∷◌, ◌++◌, map, arith, Result, ok, err, length, take,
}
use domain_status.Stream.{
  truncate, abort, error, truncated, limit_exceeded, too_large, stream_bytes_with_limit, exceed,
  accumulate, Bytes,
}
use domain_status.Stream.Laws.{joined, stream_bytes_with_limit_over}
use domain_status.Stream.Limited.{Limited, stream_bytes_with_limit-Limited}
use mathlib.Core.List.{List}

abbrev chunks : List Bytes
chunks = (1 ∷ 2 ∷ []) ∷ (3 ∷ 4 ∷ []) ∷ []

-- A read that fails behind the two chunks.
abbrev broken : List (Result Bytes ℕ)
broken = map ok chunks ++ err 5 ∷ []

truncated_run : stream_bytes_with_limit 3 truncate broken ≡ ok (truncated (1 ∷ 2 ∷ 3 ∷ []))
unfolding stream_bytes_with_limit accumulate exceed
truncated_run = refl

stream_bytes_with_limit_over_example :
    (stream_bytes_with_limit 3 truncate broken ≡ ok (truncated (take 3 (joined chunks))))
    × (stream_bytes_with_limit 3 abort broken ≡ err limit_exceeded)
    × ((got : ℕ) × (3 < got)
        × (got ≤ length (joined chunks))
        × (stream_bytes_with_limit 3 error broken ≡ err (too_large got 3)))
stream_bytes_with_limit_over_example =
    stream_bytes_with_limit_over 3 chunks (err 5 ∷ []) (omega arith)

stream_bytes_with_limit-Limited_example : Limited 3 (truncated (1 ∷ 2 ∷ 3 ∷ []))
stream_bytes_with_limit-Limited_example =
    stream_bytes_with_limit-Limited 3 truncate broken (truncated (1 ∷ 2 ∷ 3 ∷ [])) truncated_run
