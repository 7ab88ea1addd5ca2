-- ===== src/Sanitize/Stored.antt =====
-- The size and the characters of the messages that are stored.
use domain_status.Common.{
  ℕ, zero, suc, ◌+◌, ◌-◌, ◌/◌, ◌%◌, ◌≤◌, ◌≡◌, refl, ap, ◌⊎◌, inl, inr, true, false, some, [], ◌∷◌,
  ◌++◌, arith, Text, codes, utf8_width, utf8_len, leb, ltb, leb→le, ◌==◌, if◌then◌else◌, Bool-cases,
  length, All,
}
use domain_status.Sanitize.{
  is_kept, sanitize_error_message, truncate_utf8, truncate_utf8_with_suffix, with_suffix, digits,
  decimal, sanitize_and_truncate_error_message, max_error_message_length, truncation_suffix,
}
use domain_status.Sanitize.Laws.{greedy, truncate_utf8-greedy}

abbrev pub IsKept : ℕ → Type 0
IsKept c = is_kept c ≡ true

utf8_len-append : (s t : Text) → utf8_len (s ++ t) ≡ utf8_len s + utf8_len t
utf8_len-append [] t = omega arith
utf8_len-append (c ∷ s) t = omega (arith, utf8_len-append s t)

All-append : (s t : Text) → All IsKept s → All IsKept t → All IsKept (s ++ t)
All-append [] t h k = k
All-append (c ∷ s) t (p, h) k = (p, All-append s t h k)

All-greedy : (n : ℕ) (s : Text) → All IsKept s → All IsKept (greedy n s)
All-greedy n [] h = tt
All-greedy n (c ∷ s) (p, h) = elim (Bool-cases (leb (utf8_width c) n)) [
  | inl w ↦ rw (w, if◌then◌else◌) (p, All-greedy (n - utf8_width c) s h)
  | inr w ↦ rw (w, if◌then◌else◌) tt
]

All-sanitize_error_message : (s : Text) → All IsKept (sanitize_error_message s)
unfolding sanitize_error_message
All-sanitize_error_message [] = tt
All-sanitize_error_message (c ∷ s) = elim (Bool-cases (is_kept c)) [
  | inl k ↦ rw (k, if◌then◌else◌) (k, All-sanitize_error_message s)
  | inr k ↦ rw (k, if◌then◌else◌) (All-sanitize_error_message s)
]

digit-IsKept : (d : ℕ) → is_kept (48 + d) ≡ true
unfolding is_kept
digit-IsKept d = ground arith

All-digits : (fuel n : ℕ) (s : Text) → All IsKept s → All IsKept (digits fuel n s)
All-digits zero n s h = h
All-digits (suc fuel) n s h = elim (Bool-cases (ltb n 10)) [
  | inl b ↦ rw (b, if◌then◌else◌) (digit-IsKept (n % 10), h)
  | inr b ↦ rw (b, if◌then◌else◌) (All-digits fuel (n / 10) _ (digit-IsKept (n % 10), h))
]

unchanged-All : (s : Text) → sanitize_error_message s ≡ s → All IsKept s
unchanged-All s e = rw e at (All-sanitize_error_message s)

All-truncation_suffix : (n : ℕ) → All IsKept (truncation_suffix n)
unfolding sanitize_error_message is_kept
All-truncation_suffix n =
    All-append (codes "... (truncated, original length: ") (decimal n ++ codes " chars)")
      (unchanged-All (codes "... (truncated, original length: ") refl)
      (All-append (decimal n) (codes " chars)") (All-digits (n + 1) n [] tt)
        (unchanged-All (codes " chars)") refl))

ltb-le : (a b : ℕ) → ltb a b ≡ false → b ≤ a
ltb-le a b h = ground arith

-- truncate_utf8_with_suffix never panics, returns at most `max_len` bytes, and, if the text and the
-- suffix have no control characters, nor has the result.
pub truncate_utf8_with_suffix-IsWithin :
    (value : Text) (max_len : ℕ) (suffix : Text)
    → (t : Text) × (truncate_utf8_with_suffix value max_len suffix ≡ some t)
      × (utf8_len t ≤ max_len)
      × (All IsKept value → All IsKept suffix → All IsKept t)
unfolding truncate_utf8_with_suffix
truncate_utf8_with_suffix-IsWithin value n suffix = elim (Bool-cases (leb (utf8_len value) n)) [
  | inl a ↦ (value, rw (a, if◌then◌else◌) refl, leb→le (utf8_len value) n a, λ v s. v)
  | inr a ↦ elim (Bool-cases (n == 0)) [
    | inl b ↦ ([], rw (a, if◌then◌else◌) (rw (b, if◌then◌else◌) refl), omega arith, λ v s. tt)
    | inr b ↦ elim (Bool-cases (leb n (utf8_len suffix))) [
      | inl c ↦
          let (e, l) = truncate_utf8-greedy suffix n in
          (
            greedy n suffix,
            rw (a, if◌then◌else◌) (rw (b, if◌then◌else◌) (rw (c, if◌then◌else◌) e)),
            l,
            λ v s. All-greedy n suffix s,
          )
      | inr c ↦
          let m = n - utf8_len suffix in
          let (e, l) = truncate_utf8-greedy value m in
          (
            greedy m value ++ suffix,
            rw (a, if◌then◌else◌)
                (rw (b, if◌then◌else◌)
                  (rw (c, if◌then◌else◌) (ap (with_suffix suffix) (unfold truncate_utf8 in e)))),
            ground (arith, l, utf8_len-append (greedy m value) suffix),
            λ v s. All-append (greedy m value) suffix (All-greedy m value v) s,
          )
    ]
  ]
]

-- A tab, a newline, a carriage return, or no character below the blank.
abbrev pub IsPrintable : ℕ → Type 0
IsPrintable c = (c ≡ 9) ⊎ (c ≡ 10) ⊎ (c ≡ 13) ⊎ (32 ≤ c)

IsKept-IsPrintable : (c : ℕ) → IsKept c → IsPrintable c
unfolding is_kept
IsKept-IsPrintable c h = ground arith

All-IsPrintable : (s : Text) → All IsKept s → All IsPrintable s
All-IsPrintable [] h = tt
All-IsPrintable (c ∷ s) (k, h) = (IsKept-IsPrintable c k, All-IsPrintable s h)

-- sanitize_and_truncate_error_message never panics, and stores at most 2000 bytes, with no character
-- below the blank but tab, newline and carriage return.
pub message_stored :
    (message : Text)
    → (t : Text) × (sanitize_and_truncate_error_message message ≡ some t)
      × (utf8_len t ≤ 2000)
      × All IsPrintable t
unfolding sanitize_and_truncate_error_message
message_stored message =
    let s = sanitize_error_message message in
    let kept = All-sanitize_error_message message in
    let (t, e, l, k) = truncate_utf8_with_suffix-IsWithin s 2000 (truncation_suffix (length s)) in
    elim (Bool-cases (ltb max_error_message_length (utf8_len s))) [
      | inl b ↦ (
        t,
        rw (b, if◌then◌else◌) e,
        l,
        All-IsPrintable t (k kept (All-truncation_suffix (length s))),
      )
      | inr b ↦ (
        s,
        rw (b, if◌then◌else◌) refl,
        ltb-le max_error_message_length (utf8_len s) b,
        All-IsPrintable s kept,
      )
    ]
