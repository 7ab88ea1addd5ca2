-- ===== src/Literals/Channels.antt =====
-- A channel from its needles to the set of those that occurred.
use domain_status.Common.{
  ℕ, zero, suc, ◌+◌, ◌/◌, ◌%◌, ◌^◌, ◌<◌, ◌≡◌, refl, sym, ap, ◌∙◌, ◌⊎◌, inl, inr, false, ◌||◌,
  Option, none, some, List, [], ◌∷◌, ◌++◌, arith, Text, text_eq, text_eq_iff, ltb, ◌==◌,
  if◌then◌else◌, Bool-cases, some_inj, length, get_elem?, any, All,
}
use domain_status.Literals.Hits.{
  Word, replicate, bit_at, read_bit, contains_hit, scan_channel, Interner, find_id, intern_new,
  intern_found, intern,
}
use domain_status.Literals.HitsLaws.{IsSized, contains_hit-set_bits}

module _ {A : Type 0} (x : A) where
  length-replicate : (n : ℕ) → length (replicate n x) ≡ n
  length-replicate zero = refl
  length-replicate (suc n) = ap suc (length-replicate n)

  get-replicate :
      (n i : ℕ) → (get_elem? (replicate n x) i ≡ none) ⊎ (get_elem? (replicate n x) i ≡ some x)
  get-replicate zero i = inl refl
  get-replicate (suc n) zero = inr refl
  get-replicate (suc n) (suc i) = get-replicate n i

abbrev blank : Word
blank = replicate 64 false

blank-IsSized : (n : ℕ) → IsSized n (replicate n blank)
blank-IsSized n = record {
  words = length-replicate blank n;
  wide = λ i w g. elim (get-replicate blank n i) [
    | inl e ↦ absurd (ground (arith, e, g))
    | inr e ↦ ap length (some_inj (sym g ∙ e)) ∙ length-replicate false 64
  ];
}

bit_at-blank : (j : ℕ) → bit_at j (some blank) ≡ false
bit_at-blank j = elim (get-replicate false 64 j) [ inl e ↦ ap read_bit e | inr e ↦ ap read_bit e ]

contains_hit-blank : (n j : ℕ) → contains_hit (replicate n blank) j ≡ false
unfolding contains_hit
contains_hit-blank n j = elim (get-replicate blank n (j / 64)) [
  | inl e ↦ ap (bit_at (j % 64)) e
  | inr e ↦ ap (bit_at (j % 64)) e ∙ bit_at-blank (j % 64)
]

All-words :
    (n : ℕ) (found : List ℕ)
    → All (λ id. id < suc n) found
    → All (λ id. id / 64 < (n + 64) / 64) found
All-words n [] h = tt
All-words n (id ∷ found) (h, hs) = (omega (arith, h), All-words n found hs)

-- The hits of a channel are the needles that its automaton found, and no others, however many words
-- they take; the automaton finds only needles that it was built with.
pub contains_hit-scan_channel :
    (needles : ℕ) (found : List ℕ) (j : ℕ)
    → All (λ id. id < needles) found
    → contains_hit (scan_channel needles found) j ≡ any (λ id. id == j) found
unfolding scan_channel
contains_hit-scan_channel zero [] j h = unfold contains_hit in refl
contains_hit-scan_channel zero (id ∷ found) j (h, hs) = absurd (omega arith)
contains_hit-scan_channel (suc n) found j h =
    contains_hit-set_bits ((n + 64) / 64) (replicate ((n + 64) / 64) blank) found j
      (blank-IsSized ((n + 64) / 64)) (All-words n found h)
    ∙ ap (λ b. any (λ i. i == j) found || b) (contains_hit-blank ((n + 64) / 64) j)
    ∙ ground arith

-- Every number stands for the needle that it was given to.
abbrev pub IsInterned : Interner → Type 0
IsInterned s = (t : Text) (id : ℕ) → find_id t s.to_id ≡ some id → get_elem? s.needles id ≡ some t

get-append :
    {A : Type 0} (i : ℕ) (x : A) (xs ys : List A)
    → get_elem? xs i ≡ some x
    → get_elem? (xs ++ ys) i ≡ some x
get-append i x [] ys h = absurd (ground arith)
get-append zero x (z ∷ zs) ys h = h
get-append (suc i) x (z ∷ zs) ys h = get-append i x zs ys h

get-concat : {A : Type 0} (x : A) (xs : List A) → get_elem? (xs ++ x ∷ []) (length xs) ≡ some x
get-concat x [] = refl
get-concat x (z ∷ zs) = get-concat x zs

-- What interning `needle` gives: a number of that needle, with all earlier numbers kept.
pub record Interned (needle : Text) (id : ℕ) (s s' : Interner) : Type 0 where
  pub sound : IsInterned s'
  pub named : get_elem? s'.needles id ≡ some needle
  pub kept : (i : ℕ) (t : Text) → get_elem? s.needles i ≡ some t → get_elem? s'.needles i ≡ some t

Interned-new :
    (needle : Text) (s : Interner)
    → IsInterned s
    → Interned needle (length s.needles) s (record {
      to_id = (needle, length s.needles) ∷ s.to_id;
      needles = s.needles ++ needle ∷ [];
    })
Interned-new needle s v = record {
  sound = λ t id e. elim (Bool-cases (text_eq t needle)) [
    | inl b ↦
        let same : t ≡ needle = (text_eq_iff t needle).0 b in
        let number : length s.needles ≡ id = some_inj (rw (b, if◌then◌else◌) at e) in
        ap (get_elem? (s.needles ++ needle ∷ [])) (sym number)
        ∙ get-concat needle s.needles
        ∙ ap some (sym same)
    | inr b ↦ get-append id t s.needles (needle ∷ []) (v t id (rw (b, if◌then◌else◌) at e))
  ];
  named = get-concat needle s.needles;
  kept = λ i t e. get-append i t s.needles (needle ∷ []) e;
}

intern_new-Interned :
    (needle : Text) (s s' : Interner) (id : ℕ)
    → IsInterned s
    → intern_new s needle ≡ (s', some id)
    → Interned needle id s s'
unfolding intern_new
intern_new-Interned needle s s' id v e = elim (Bool-cases (ltb (length s.needles) (2 ^ 32))) [
  | inl b ↦
      let f = rw (b, if◌then◌else◌) at e in
      rw (sym (ap (λ p. p.0) f)) (rw (sym (some_inj (ap (λ p. p.1) f))) (Interned-new needle s v))
  | inr b ↦ let f = ap (λ p. p.1) (rw (b, if◌then◌else◌) at e) in absurd (ground (arith, f))
]

intern_found-Interned :
    (needle : Text) (o : Option ℕ) (s s' : Interner) (id : ℕ)
    → IsInterned s
    → find_id needle s.to_id ≡ o
    → intern_found o s needle ≡ (s', some id)
    → Interned needle id s s'
intern_found-Interned needle none s s' id v q e = intern_new-Interned needle s s' id v e
intern_found-Interned needle (some i) s s' id v q e = rw (sym (ap (λ p. p.0) e)) (
    rw (sym (some_inj (ap (λ p. p.1) e)))
      (record { sound = v; named = v needle i q; kept = λ j t g. g }))

-- Interning a needle gives a number that stands for it, keeps what every earlier number stands for,
-- and keeps the numbering sound.
pub intern-Interned :
    (needle : Text) (s s' : Interner) (id : ℕ)
    → IsInterned s
    → intern s needle ≡ (s', some id)
    → Interned needle id s s'
unfolding intern
intern-Interned needle s s' id v e =
    intern_found-Interned needle (find_id needle s.to_id) s s' id v refl e
