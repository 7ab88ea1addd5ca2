-- ===== src/Literals/Hits.antt =====
-- The set of needles that occurred, and the numbering of the needles. A `u64` is the list of its 64
-- bits, the lowest first. The matches that the automaton reports are a parameter.
use domain_status.Common.{
  ℕ, zero, suc, ◌+◌, ◌/◌, ◌%◌, ◌^◌, Bool, true, false, Option, none, some, List, [], ◌∷◌, ◌++◌,
  Text, text_eq, ltb, if◌then◌else◌, length, get_elem?,
}

abbrev pub Word : Type 0
Word = List Bool

abbrev pub set_elem {ℓ} : {A : Type ℓ} → ℕ → A → List A → List A
set_elem i x [] = []
set_elem zero x (y ∷ ys) = x ∷ ys
set_elem (suc i) x (y ∷ ys) = y ∷ set_elem i x ys

abbrev pub replicate {ℓ} : {A : Type ℓ} → ℕ → A → List A
replicate zero x = []
replicate (suc n) x = x ∷ replicate n x

abbrev pub read_bit : Option Bool → Bool
read_bit none = false
read_bit (some b) = b

abbrev pub bit_at : ℕ → Option Word → Bool
bit_at bit none = false
bit_at bit (some slot) = read_bit (get_elem? slot bit)

-- `HitSet::contains`.
unfoldable pub contains_hit : List Word → ℕ → Bool
contains_hit bits id = bit_at (id % 64) (get_elem? bits (id / 64))

abbrev pub or_bit : ℕ → ℕ → Option Word → List Word → List Word
or_bit word bit none bits = bits
or_bit word bit (some slot) bits = set_elem word (set_elem bit true slot) bits

unfoldable pub set_bit : List Word → ℕ → List Word
set_bit bits id = or_bit (id / 64) (id % 64) (get_elem? bits (id / 64)) bits

unfoldable pub set_bits : List Word → List ℕ → List Word
unfolding set_bit
set_bits bits [] = bits
set_bits bits (id ∷ ids) = set_bits (set_bit bits id) ids

-- `scan_channel` of `needles` needles, of which the automaton reports `found`. A channel without
-- needles has no automaton.
unfoldable pub scan_channel : ℕ → List ℕ → List Word
unfolding set_bits
scan_channel zero found = []
scan_channel (suc n) found = set_bits (replicate ((n + 64) / 64) (replicate 64 false)) found

pub record Interner : Type 0 where
  pub to_id : List (Text × ℕ)
  pub needles : List Text

abbrev pub find_id : Text → List (Text × ℕ) → Option ℕ
find_id needle [] = none
find_id needle ((t, id) ∷ rest) = if text_eq needle t then some id else find_id needle rest

-- The new needle's number has to fit in a `u32`.
unfoldable pub intern_new : Interner → Text → Interner × Option ℕ
intern_new s needle =
    let id = length s.needles in
    if ltb id (2 ^ 32)
    then (record { to_id = (needle, id) ∷ s.to_id; needles = s.needles ++ needle ∷ [] }, some id)
    else (s, none)

abbrev pub intern_found : Option ℕ → Interner → Text → Interner × Option ℕ
intern_found (some id) s needle = (s, some id)
intern_found none s needle = intern_new s needle

unfoldable pub intern : Interner → Text → Interner × Option ℕ
unfolding intern_new
intern s needle = intern_found (find_id needle s.to_id) s needle
