-- ===== src/Literals/HitsLaws.antt =====
-- Setting and testing the bits of a HitSet.
use domain_status.Common.{
  ℕ, zero, suc, ◌/◌, ◌%◌, ◌<◌, ◌≡◌, ◌≢◌, refl, sym, ap, ◌∙◌, inl, inr, true, false, ◌||◌, some,
  List, [], ◌∷◌, arith, ◌==◌, ==_iff, Bool-cases, some_inj, length, get_elem?, any, All,
}
use domain_status.Literals.Hits.{
  Word, set_elem, read_bit, bit_at, contains_hit, or_bit, set_bit, set_bits,
}

module _ {A : Type 0} where
  get-set_same :
      (i : ℕ) (x y : A) (xs : List A)
      → get_elem? xs i ≡ some y
      → get_elem? (set_elem i x xs) i ≡ some x
  get-set_same i x y [] h = absurd (ground arith)
  get-set_same zero x y (z ∷ zs) h = refl
  get-set_same (suc i) x y (z ∷ zs) h = get-set_same i x y zs h

  get-set_other :
      (i j : ℕ) (x : A) (xs : List A) → i ≢ j → get_elem? (set_elem i x xs) j ≡ get_elem? xs j
  get-set_other i j x [] h = refl
  get-set_other zero zero x (z ∷ zs) h = absurd (h refl)
  get-set_other zero (suc j) x (z ∷ zs) h = refl
  get-set_other (suc i) zero x (z ∷ zs) h = refl
  get-set_other (suc i) (suc j) x (z ∷ zs) h = get-set_other i j x zs (λ e. h (ap suc e))

  length-set_elem : (i : ℕ) (x : A) (xs : List A) → length (set_elem i x xs) ≡ length xs
  length-set_elem i x [] = refl
  length-set_elem zero x (y ∷ ys) = refl
  length-set_elem (suc i) x (y ∷ ys) = ap suc (length-set_elem i x ys)

  get-within : (i : ℕ) (xs : List A) → i < length xs → (x : A) × (get_elem? xs i ≡ some x)
  get-within i [] h = absurd (omega arith)
  get-within zero (x ∷ xs) h = (x, refl)
  get-within (suc i) (x ∷ xs) h = get-within i xs (omega arith)

-- `n` words of 64 bits.
pub record IsSized (n : ℕ) (bits : List Word) : Type 0 where
  pub words : length bits ≡ n
  pub wide : (i : ℕ) (w : Word) → get_elem? bits i ≡ some w → length w ≡ 64

set_bit-set_elem :
    (bits : List Word) (id : ℕ) (slot : Word)
    → get_elem? bits (id / 64) ≡ some slot
    → set_bit bits id ≡ set_elem (id / 64) (set_elem (id % 64) true slot) bits
unfolding set_bit
set_bit-set_elem bits id slot s = ap (λ o. or_bit (id / 64) (id % 64) o bits) s

bit_at-set :
    (i j : ℕ) (slot : Word)
    → length slot ≡ 64
    → i < 64
    → bit_at j (some (set_elem i true slot)) ≡ (i == j || bit_at j (some slot))
bit_at-set i j slot l h = elim (Bool-cases (i == j)) [
  | inl e ↦
      let same : i ≡ j = (==_iff i j).0 e in
      let (y, g) = get-within i slot (omega (arith, l, h)) in
      ap (λ k. read_bit (get_elem? (set_elem i true slot) k)) (sym same)
      ∙ ap read_bit (get-set_same i true y slot g)
      ∙ ap (λ b. b || bit_at j (some slot)) (sym e)
  | inr e ↦
      ap read_bit (get-set_other i j true slot (ground arith))
      ∙ ap (λ b. b || bit_at j (some slot)) (sym e)
]

same_word : (i j : ℕ) → i / 64 ≡ j / 64 → (i % 64 == j % 64) ≡ (i == j)
same_word i j h = elim (Bool-cases (i == j)) [ inl e ↦ ground arith | inr e ↦ ground arith ]

contains_hit-set_bit :
    (n : ℕ) (bits : List Word) (id j : ℕ)
    → IsSized n bits
    → id / 64 < n
    → contains_hit (set_bit bits id) j ≡ (id == j || contains_hit bits j)
unfolding contains_hit
contains_hit-set_bit n bits id j v h =
    let (slot, s) = get-within (id / 64) bits (omega (arith, v.words, h)) in
    let new = set_elem (id % 64) true slot in
    let written : get_elem? (set_bit bits id) (j / 64)
        ≡ get_elem? (set_elem (id / 64) new bits) (j / 64) =
      ap (λ b. get_elem? b (j / 64)) (set_bit-set_elem bits id slot s) in
    elim (Bool-cases (id / 64 == j / 64)) [
      | inl e ↦
          let same : id / 64 ≡ j / 64 = (==_iff (id / 64) (j / 64)).0 e in
          ap (bit_at (j % 64)) (
            written
            ∙ ap (get_elem? (set_elem (id / 64) new bits)) (sym same)
            ∙ get-set_same (id / 64) new slot bits s)
          ∙ bit_at-set (id % 64) (j % 64) slot (v.wide (id / 64) slot s) (omega arith)
          ∙ ap (λ b. b || bit_at (j % 64) (some slot)) (same_word id j same)
          ∙ ap (λ o. id == j || bit_at (j % 64) o) (sym (ap (get_elem? bits) (sym same) ∙ s))
      | inr e ↦
          let other : (id == j) ≡ false = ground arith in
          ap (bit_at (j % 64)) (written ∙ get-set_other (id / 64) (j / 64) new bits (ground arith))
          ∙ ap (λ b. b || contains_hit bits j) (sym other)
    ]

set_bit-IsSized :
    (n : ℕ) (bits : List Word) (id : ℕ) → IsSized n bits → id / 64 < n → IsSized n (set_bit bits id)
set_bit-IsSized n bits id v h =
    let (slot, s) = get-within (id / 64) bits (omega (arith, v.words, h)) in
    let new = set_elem (id % 64) true slot in
    rw (set_bit-set_elem bits id slot s) (record {
      words = length-set_elem (id / 64) new bits ∙ v.words;
      wide = λ i w g. elim (Bool-cases (id / 64 == i)) [
        | inl e ↦
            let same : id / 64 ≡ i = (==_iff (id / 64) i).0 e in
            let found : some new ≡ some w =
              sym (get-set_same (id / 64) new slot bits s)
              ∙ ap (get_elem? (set_elem (id / 64) new bits)) same
              ∙ g in
            ap length (sym (some_inj found))
            ∙ length-set_elem (id % 64) true slot
            ∙ v.wide (id / 64) slot s
        | inr e ↦ v.wide i w (sym (get-set_other (id / 64) i new bits (ground arith)) ∙ g)
      ];
    })

pub contains_hit-set_bits :
    (n : ℕ) (bits : List Word) (ids : List ℕ) (j : ℕ)
    → IsSized n bits
    → All (λ id. id / 64 < n) ids
    → contains_hit (set_bits bits ids) j ≡ (any (λ id. id == j) ids || contains_hit bits j)
unfolding set_bits
contains_hit-set_bits n bits [] j v h = refl
contains_hit-set_bits n bits (id ∷ ids) j v (h, hs) =
    contains_hit-set_bits n (set_bit bits id) ids j (set_bit-IsSized n bits id v h) hs
    ∙ ap (λ b. any (λ i. i == j) ids || b) (contains_hit-set_bit n bits id j v h)
    ∙ ground arith
