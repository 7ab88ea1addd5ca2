-- ===== src/Sanitize/Laws.antt =====
-- truncate_at_char_boundary against a greedy prefix.
use domain_status.Common.{
  ℕ, zero, suc, ◌-◌, ◌≤◌, ◌≡◌, refl, sym, ap, ◌∙◌, inl, inr, true, false, some, [], ◌∷◌, arith,
  Text, utf8_width, utf8_len, is_char_boundary, leb, leb→le, le→leb, if◌then◌else◌, Bool-cases,
}
use domain_status.Sanitize.{
  before_byte, slice_to, floor_char_boundary, truncate_at_char_boundary, truncate_utf8,
}

utf8_width_pos : (c : ℕ) → 1 ≤ utf8_width c
utf8_width_pos c = ground arith

before_byte-le : (n : ℕ) (s : Text) → utf8_len (before_byte n s) ≤ n
unfolding before_byte
before_byte-le n [] = omega arith
before_byte-le n (c ∷ s) =
    let ih = before_byte-le (n - utf8_width c) s in
    elim (Bool-cases (leb (utf8_width c) n)) [
      | inl h ↦ rw (h, if◌then◌else◌) (omega (arith, ih, leb→le (utf8_width c) n h))
      | inr h ↦ rw (h, if◌then◌else◌) (omega arith)
    ]

before_byte_all : (n : ℕ) (s : Text) → utf8_len s ≤ n → before_byte n s ≡ s
unfolding before_byte
before_byte_all n [] h = refl
before_byte_all n (c ∷ s) h =
    let w : leb (utf8_width c) n ≡ true = le→leb (utf8_width c) n (omega (arith, h)) in
    rw (w, if◌then◌else◌)
      (ap (λ t. c ∷ t) (before_byte_all (n - utf8_width c) s (omega (arith, h))))

positive_boundary : (m : ℕ) (s : Text) → is_char_boundary s m ≡ false → (k : ℕ) × (m ≡ suc k)
positive_boundary zero s h = absurd (ground arith)
positive_boundary (suc k) s h = (k, refl)

-- Where `suc n` is inside of a character, the characters before it are those before `n`.
before_byte_inside :
    (n : ℕ) (s : Text)
    → is_char_boundary s (suc n) ≡ false
    → before_byte (suc n) s ≡ before_byte n s
unfolding before_byte
before_byte_inside n [] h = refl
before_byte_inside n (c ∷ s) h = elim (Bool-cases (leb (utf8_width c) (suc n))) [
  | inl w ↦
      let inner : is_char_boundary s (suc n - utf8_width c) ≡ false = ground arith in
      let (k, e) = positive_boundary (suc n - utf8_width c) s inner in
      let l : leb (utf8_width c) n ≡ true = le→leb (utf8_width c) n (omega (arith, e)) in
      let d : n - utf8_width c ≡ k = omega (arith, e) in
      rw (w, if◌then◌else◌)
        (rw (l, if◌then◌else◌)
          (rw e (rw d (ap (λ t. c ∷ t) (before_byte_inside k s (rw e at inner))))))
  | inr w ↦
      let l : leb (utf8_width c) n ≡ false = ground arith in
      rw (w, if◌then◌else◌) (rw (l, if◌then◌else◌) refl)
]

-- The loop stops at a boundary, and loses no character that fits.
floor_char_boundary-before_byte :
    (n : ℕ) (s : Text)
    → (is_char_boundary s (floor_char_boundary s n) ≡ true)
      × (before_byte (floor_char_boundary s n) s ≡ before_byte n s)
unfolding floor_char_boundary
floor_char_boundary-before_byte zero s = (refl, refl)
floor_char_boundary-before_byte (suc n) s =
    let (b, e) = floor_char_boundary-before_byte n s in
    elim (Bool-cases (is_char_boundary s (suc n))) [
      | inl h ↦ rw (h, if◌then◌else◌) (h, refl)
      | inr h ↦ rw (h, if◌then◌else◌) (b, e ∙ sym (before_byte_inside n s h))
    ]

-- The longest prefix of whole characters that has at most `max_len` bytes.
abbrev pub greedy : ℕ → Text → Text
greedy n [] = []
greedy n (c ∷ s) = if leb (utf8_width c) n then c ∷ greedy (n - utf8_width c) s else []

greedy-before_byte : (n : ℕ) (s : Text) → before_byte n s ≡ greedy n s
unfolding before_byte
greedy-before_byte n [] = refl
greedy-before_byte n (c ∷ s) = rw (greedy-before_byte (n - utf8_width c) s) refl

-- truncate_utf8 never slices inside of a character, and returns the longest prefix of whole
-- characters that has at most `max_len` bytes.
pub truncate_utf8-greedy :
    (value : Text) (max_len : ℕ)
    → (truncate_utf8 value max_len ≡ some (greedy max_len value))
      × (utf8_len (greedy max_len value) ≤ max_len)
unfolding truncate_utf8 truncate_at_char_boundary slice_to
truncate_utf8-greedy value n =
    let (b, e) = floor_char_boundary-before_byte n value in
    let le : utf8_len (greedy n value) ≤ n =
      rw (greedy-before_byte n value) at (before_byte-le n value) in
    elim (Bool-cases (leb (utf8_len value) n)) [
      | inl h ↦ (
        rw (h, if◌then◌else◌)
            (ap some (
              sym (before_byte_all n value (leb→le (utf8_len value) n h))
              ∙ greedy-before_byte n value)),
        le,
      )
      | inr h ↦ (
        rw (h, if◌then◌else◌) (rw (b, if◌then◌else◌) (ap some (e ∙ greedy-before_byte n value))),
        le,
      )
    ]
