-- ===== src/Stream.antt =====
-- src/fetch/stream.rs: a response body read chunk by chunk under a size limit. The chunks that
-- the HTTP client yields, each a result, are a parameter; bytes are numbers.
pub mod Laws
pub mod Limited
mod Tests
use domain_status.Common.{
  ℕ, ◌-◌, ◌+◌, Option, none, some, List, [], ◌∷◌, ◌++◌, Bool, true, false, Result, ok, err, ltb,
  if◌then◌else◌, length, take,
}

abbrev pub Bytes : Type 0
Bytes = List ℕ

pub data OnLimit : Type 0 where
  truncate abort error : OnLimit

pub data StreamedBytes : Type 0 where
  complete truncated : Bytes → StreamedBytes

-- `too_large got max`.
pub data StreamBytesError (E : Type 0) : Type 0 where
  read : E → StreamBytesError E
  limit_exceeded : StreamBytesError E
  too_large : ℕ → ℕ → StreamBytesError E

unfoldable pub into_bytes : StreamedBytes → Bytes
into_bytes (complete b) = b
into_bytes (truncated b) = b

unfoldable pub is_truncated : StreamedBytes → Bool
is_truncated (complete b) = false
is_truncated (truncated b) = true

module _ {E : Type 0} (max_size : ℕ) (on_limit : OnLimit) where
  -- The `match` on `on_limit`. Both lengths are those of slices, so their sum saturates nowhere.
  unfoldable pub exceed : Bytes → Bytes → Result StreamedBytes (StreamBytesError E)
  exceed accumulated chunk = elim on_limit [
    | truncate ↦
        let room = max_size - length accumulated in ok (truncated (accumulated ++ take room chunk))
    | abort ↦ err limit_exceeded
    | error ↦ err (too_large (length accumulated + length chunk) max_size)
  ]

  -- The `while let` loop, by the chunks that are left.
  unfoldable pub accumulate :
      Bytes → List (Result Bytes E) → Result StreamedBytes (StreamBytesError E)
  accumulate accumulated [] = ok (complete accumulated)
  accumulate accumulated (err e ∷ chunks) = err (read e)
  accumulate accumulated (ok chunk ∷ chunks) =
      let rest = accumulate (accumulated ++ chunk) chunks in
      if ltb max_size (length accumulated + length chunk) then exceed accumulated chunk else rest

  unfoldable pub stream_bytes_with_limit :
      List (Result Bytes E) → Result StreamedBytes (StreamBytesError E)
  stream_bytes_with_limit chunks = accumulate [] chunks

-- The `Content-Length` header is absent from some responses.
unfoldable pub reject_if_content_length_exceeds : Option ℕ → ℕ → Result (Unit {0}) (Unit {0})
reject_if_content_length_exceeds none max_size = ok tt
reject_if_content_length_exceeds (some content_length) max_size =
    if ltb max_size content_length then err tt else ok tt
