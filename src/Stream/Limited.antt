-- ===== src/Stream/Limited.antt =====
-- The bound on what stream_bytes_with_limit keeps, and its agreement with the Content-Length test.
use domain_status.Common.{
  ℕ, ◌+◌, ◌-◌, ◌≤◌, ◌<◌, ◌≡◌, refl, ◌↔◌, sym, ◌∙◌, inl, inr, true, some, List, [], ◌∷◌, ◌++◌, map,
  arith, Result, ok, err, ltb, ltb→lt, if◌then◌else◌, Bool-cases, length, take, length-append,
  length-take,
}
use domain_status.Stream.{
  Bytes, OnLimit, truncate, abort, error, StreamedBytes, complete, truncated, into_bytes,
  is_truncated, exceed, accumulate, stream_bytes_with_limit, reject_if_content_length_exceeds,
}
use domain_status.Stream.Laws.{joined, accumulate_step, stream_bytes_with_limit_whole}

-- A result keeps at most `max_size` bytes, and exactly so many if it is a prefix.
abbrev pub Limited : ℕ → StreamedBytes → Type 0
Limited max_size r =
    (length (into_bytes r) ≤ max_size) × (is_truncated r ≡ true → length (into_bytes r) ≡ max_size)

module _ {E : Type 0} (max_size : ℕ) where
  exceed-Limited :
      (on_limit : OnLimit) (acc chunk : Bytes) (r : StreamedBytes)
      → length acc ≤ max_size
      → max_size < length acc + length chunk
      → exceed {E = E} max_size on_limit acc chunk ≡ ok r
      → Limited max_size r
  unfolding exceed into_bytes is_truncated
  exceed-Limited truncate acc chunk r h g e =
      let room = max_size - length acc in
      let l : length (acc ++ take room chunk) ≡ max_size =
        omega
          (arith, length-append acc (take room chunk), length-take room chunk (omega arith), h) in
      let s : r ≡ truncated (acc ++ take room chunk) = cc e in rw s (omega (arith, l), λ t. l)
  exceed-Limited abort acc chunk r h g e = absurd (ground arith)
  exceed-Limited error acc chunk r h g e = absurd (ground arith)

  accumulate-Limited :
      (on_limit : OnLimit) (acc : Bytes) (chunks : List (Result Bytes E)) (r : StreamedBytes)
      → length acc ≤ max_size
      → accumulate max_size on_limit acc chunks ≡ ok r
      → Limited max_size r
  accumulate-Limited on_limit acc [] r h e =
      unfold accumulate into_bytes is_truncated in
      let s : r ≡ complete acc = cc e in rw s (h, λ t. absurd (ground arith))
  accumulate-Limited on_limit acc (err x ∷ chunks) r h e =
      absurd (unfold accumulate in ground arith)
  accumulate-Limited on_limit acc (ok chunk ∷ chunks) r h e =
      elim (Bool-cases (ltb max_size (length acc + length chunk))) [
        | inl q ↦
            exceed-Limited on_limit acc chunk r h (ltb→lt max_size (length acc + length chunk) q) (
              sym (accumulate_step max_size on_limit acc chunk chunks ∙ rw (q, if◌then◌else◌) refl)
              ∙ e)
        | inr q ↦
            accumulate-Limited on_limit (acc ++ chunk) chunks r
              (ground (arith, length-append acc chunk))
              (sym (accumulate_step max_size on_limit acc chunk chunks ∙ rw (q, if◌then◌else◌) refl)
                ∙ e)
      ]

  -- Whatever the chunks and the policy are, a successful result keeps at most `max_size` bytes,
  -- and exactly `max_size` where it is truncated.
  pub stream_bytes_with_limit-Limited :
      (on_limit : OnLimit) (chunks : List (Result Bytes E)) (r : StreamedBytes)
      → stream_bytes_with_limit max_size on_limit chunks ≡ ok r
      → Limited max_size r
  unfolding stream_bytes_with_limit
  stream_bytes_with_limit-Limited on_limit chunks r e =
      accumulate-Limited on_limit [] chunks r (omega arith) e

  -- Of a body whose length is sent as the `Content-Length`, `reject_if_content_length_exceeds`
  -- lets pass exactly those that stream_bytes_with_limit returns whole.
  pub reject_if_content_length_exceeds_iff :
      (on_limit : OnLimit) (bs : List Bytes)
      → (reject_if_content_length_exceeds (some (length (joined bs))) max_size ≡ ok tt) ↔ (
          stream_bytes_with_limit {E = E} max_size on_limit (map ok bs) ≡ ok (complete (joined bs)))
  unfolding reject_if_content_length_exceeds
  reject_if_content_length_exceeds_iff on_limit bs = (
    λ e. stream_bytes_with_limit_whole max_size on_limit bs (ground arith),
    λ e.
        let l = stream_bytes_with_limit-Limited on_limit (map ok bs) _ e in
        let fits : length (joined bs) ≤ max_size = unfold into_bytes in l.0 in ground arith,
  )
