-- ===== src/Stream/Laws.antt =====
-- What stream_bytes_with_limit returns, as a function of the whole body.
use mathlib.Core.List.{append_assoc, append-nil}
use domain_status.Common.{
  ℕ, zero, suc, ◌+◌, ◌-◌, ◌≤◌, ◌<◌, ◌≡◌, refl, sym, ap, ◌∙◌, inl, inr, List, [], ◌∷◌, ◌++◌, map,
  arith, Result, ok, err, ltb, ltb→lt, if◌then◌else◌, Bool-cases, length, take, length-append,
}
use domain_status.Stream.{
  Bytes, OnLimit, truncate, abort, error, complete, truncated, read, limit_exceeded, too_large,
  exceed, accumulate, stream_bytes_with_limit,
}

-- The body that the chunks make up.
abbrev pub joined : List Bytes → Bytes
joined [] = []
joined (c ∷ cs) = c ++ joined cs

take-append :
    (n : ℕ) (xs ys : Bytes) → length xs ≤ n → take n (xs ++ ys) ≡ xs ++ take (n - length xs) ys
take-append n [] ys h = ap (λ m. take m ys) (omega arith)
take-append zero (x ∷ xs) ys h = absurd (omega arith)
take-append (suc n) (x ∷ xs) ys h =
    ap (λ t. x ∷ t) (take-append n xs ys (omega arith))
    ∙ ap (λ m. x ∷ (xs ++ take m ys)) (omega arith)

take_within : (n : ℕ) (xs ys : Bytes) → n ≤ length xs → take n (xs ++ ys) ≡ take n xs
take_within zero xs ys h = refl
take_within (suc n) [] ys h = absurd (omega arith)
take_within (suc n) (x ∷ xs) ys h = ap (λ t. x ∷ t) (take_within n xs ys (omega arith))

-- The chunk `chunk` at which a body exceeds the limit, the bytes before it and those behind.
pub record Crossing (max_size : ℕ) (body : Bytes) : Type 0 where
  pub before : Bytes
  pub chunk : Bytes
  pub behind : Bytes
  pub split : body ≡ before ++ chunk ++ behind
  pub fits : length before ≤ max_size
  pub crosses : max_size < length before + length chunk

module _ {E : Type 0} (max_size : ℕ) (on_limit : OnLimit) where
  pub accumulate_step :
      (acc chunk : Bytes) (cs : List (Result Bytes E))
      → accumulate max_size on_limit acc (ok chunk ∷ cs) ≡ (
          if ltb max_size (length acc + length chunk)
          then exceed max_size on_limit acc chunk
          else accumulate max_size on_limit (acc ++ chunk) cs)
  unfolding accumulate
  accumulate_step acc chunk cs = refl

  accumulate_fits :
      (acc : Bytes) (bs : List Bytes) (rest : List (Result Bytes E))
      → length acc + length (joined bs) ≤ max_size
      → accumulate max_size on_limit acc (map ok bs ++ rest)
        ≡ accumulate max_size on_limit (acc ++ joined bs) rest
  accumulate_fits acc [] rest h =
      ap (λ t. accumulate max_size on_limit t rest) (sym (append-nil acc))
  accumulate_fits acc (b ∷ bs) rest h =
      let lb = length-append b (joined bs) in
      let la = length-append acc b in
      elim (Bool-cases (ltb max_size (length acc + length b))) [
        | inl e ↦ absurd (ground arith)
        | inr e ↦
            accumulate_step acc b (map ok bs ++ rest)
            ∙ rw (e, if◌then◌else◌)
                (accumulate_fits (acc ++ b) bs rest (omega (arith, lb, la, h))
                  ∙ ap (λ t. accumulate max_size on_limit t rest) (append_assoc acc b (joined bs)))
      ]

  -- Where the chunks do not fit, the loop stops at the first that crosses the limit.
  accumulate_exceeds :
      (acc : Bytes) (bs : List Bytes) (rest : List (Result Bytes E)) (body : Bytes)
      → body ≡ acc ++ joined bs
      → length acc ≤ max_size
      → max_size < length body
      → (c : Crossing max_size body) × (accumulate max_size on_limit acc (map ok bs ++ rest)
          ≡ exceed max_size on_limit c.before c.chunk)
  accumulate_exceeds acc [] rest body s h g =
      absurd (omega (arith, ap length s, length-append acc [], h, g))
  accumulate_exceeds acc (b ∷ bs) rest body s h g =
      elim (Bool-cases (ltb max_size (length acc + length b))) [
        | inl e ↦ (
          record {
            before = acc;
            chunk = b;
            behind = joined bs;
            split = s ∙ sym (append_assoc acc b (joined bs));
            fits = h;
            crosses = ltb→lt max_size (length acc + length b) e;
          },
          accumulate_step acc b (map ok bs ++ rest) ∙ rw (e, if◌then◌else◌) refl,
        )
        | inr e ↦
            let (c, q) =
              accumulate_exceeds (acc ++ b) bs rest body (s ∙ sym (append_assoc acc b (joined bs)))
                (ground (arith, length-append acc b)) g in
            (c, accumulate_step acc b (map ok bs ++ rest) ∙ rw (e, if◌then◌else◌) q)
      ]

  -- Where the chunks before a failed read fit, the read's error is the result.
  pub stream_bytes_with_limit_read :
      (bs : List Bytes) (e : E) (rest : List (Result Bytes E))
      → length (joined bs) ≤ max_size
      → stream_bytes_with_limit max_size on_limit (map ok bs ++ err e ∷ rest) ≡ err (read e)
  unfolding stream_bytes_with_limit
  stream_bytes_with_limit_read bs e rest h =
      accumulate_fits [] bs (err e ∷ rest) (omega arith) ∙ (unfold accumulate in refl)

  -- A body that fits is returned whole, whatever the policy is.
  pub stream_bytes_with_limit_whole :
      (bs : List Bytes)
      → length (joined bs) ≤ max_size
      → stream_bytes_with_limit {E = E} max_size on_limit (map ok bs) ≡ ok (complete (joined bs))
  unfolding stream_bytes_with_limit
  stream_bytes_with_limit_whole bs h =
      ap (accumulate max_size on_limit []) (sym (append-nil (map ok bs)))
      ∙ accumulate_fits [] bs [] (omega arith)
      ∙ (unfold accumulate in refl)

Crossing-take :
    (max_size : ℕ) {body : Bytes} (c : Crossing max_size body)
    → take max_size body ≡ c.before ++ take (max_size - length c.before) c.chunk
Crossing-take max_size c =
    ap (take max_size) (c.split ∙ append_assoc c.before c.chunk c.behind)
    ∙ take-append max_size c.before (c.chunk ++ c.behind) c.fits
    ∙ ap (λ t. c.before ++ t)
        (take_within (max_size - length c.before) c.chunk c.behind
          (omega (arith, c.crosses, c.fits)))

Crossing-le :
    (max_size : ℕ) {body : Bytes} (c : Crossing max_size body)
    → length c.before + length c.chunk ≤ length body
Crossing-le max_size c = omega (
  arith,
  ap length c.split,
  length-append (c.before ++ c.chunk) c.behind,
  length-append c.before c.chunk,
)

module _ {E : Type 0} (max_size : ℕ) where
  -- What a body that exceeds the limit becomes under each of the three policies, whatever follows
  -- the chunks `bs` that exceed it.
  pub stream_bytes_with_limit_over :
      (bs : List Bytes) (rest : List (Result Bytes E))
      → max_size < length (joined bs)
      → (stream_bytes_with_limit max_size truncate (map ok bs ++ rest)
          ≡ ok (truncated (take max_size (joined bs))))
        × (stream_bytes_with_limit max_size abort (map ok bs ++ rest) ≡ err limit_exceeded)
        × ((got : ℕ) × (max_size < got)
            × (got ≤ length (joined bs))
            × (stream_bytes_with_limit max_size error (map ok bs ++ rest)
                ≡ err (too_large got max_size)))
  unfolding stream_bytes_with_limit exceed
  stream_bytes_with_limit_over bs rest h =
      let (c, q) =
        accumulate_exceeds max_size truncate [] bs rest (joined bs) refl (omega arith) h in
      let (d, r) = accumulate_exceeds max_size abort [] bs rest (joined bs) refl (omega arith) h in
      let (f, t) = accumulate_exceeds max_size error [] bs rest (joined bs) refl (omega arith) h in
      (
        q ∙ ap (λ u. ok (truncated u)) (sym (Crossing-take max_size c)),
        r,
        (length f.before + length f.chunk, f.crosses, Crossing-le max_size f, t),
      )
