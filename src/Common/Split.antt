-- ===== src/Common/Split.antt =====
-- What the program uses of `str` to take texts apart, and maps as association lists: the order of
-- the list is the order in which the map is iterated.
use Prim.Native.Nat.{ℕ, zero, suc, ◌+◌, ◌-◌, ◌*◌}
use mathlib.Core.Bool.{Bool, false, ◌&&◌, ◌||◌}
use mathlib.Core.List.{List, [], ◌∷◌, ◌++◌}
use mathlib.Core.Option.{Option, none, some}
use domain_status.Common.Lists.{length}
use domain_status.Common.Tests.{ltb, ◌==◌, if◌then◌else◌, within}
use domain_status.Common.Texts.{Text, text_eq, starts_with, to_ascii_lowercase}

-- A character in front of the first part.
abbrev pub cons_head : ℕ → List Text → List Text
cons_head c [] = (c ∷ []) ∷ []
cons_head c (p ∷ parts) = (c ∷ p) ∷ parts

-- `str::split` of a character.
abbrev pub split_char : ℕ → Text → List Text
split_char sep [] = [] ∷ []
split_char sep (c ∷ s) =
    let rest = split_char sep s in if c == sep then [] ∷ rest else cons_head c rest

-- `str::split` of the text of two characters `a` and `b`, which differ.
abbrev pub split_pair : ℕ → ℕ → Text → List Text
split_pair a b [] = [] ∷ []
split_pair a b (c ∷ []) = (c ∷ []) ∷ []
split_pair a b (c ∷ d ∷ s) =
    let cut = split_pair a b s in
    let kept = split_pair a b (d ∷ s) in if c == a && d == b then [] ∷ cut else cons_head c kept

abbrev cons_before : ℕ → Option (Text × Text) → Option (Text × Text)
cons_before c none = none
cons_before c (some (before, after)) = some (c ∷ before, after)

-- `str::split_once` of a character.
abbrev pub split_once : ℕ → Text → Option (Text × Text)
split_once sep [] = none
split_once sep (c ∷ s) =
    let rest = split_once sep s in if c == sep then some ([], s) else cons_before c rest

abbrev replace_from : Text → Text → ℕ → Text → Text
replace_from from to skip [] = []
replace_from from to (suc skip) (c ∷ s) = replace_from from to skip s
replace_from from to zero (c ∷ s) =
    let cut = replace_from from to (length from - 1) s in
    let kept = replace_from from to zero s in
    if starts_with from (c ∷ s) then to ++ cut else c ∷ kept

-- `str::replace`, of a text that is not empty.
abbrev pub replace : Text → Text → Text → Text
replace s from to = replace_from from to 0 s

-- `char::is_ascii_digit`.
abbrev pub is_ascii_digit : ℕ → Bool
is_ascii_digit c = within b'0' b'9' c

abbrev digits_value : ℕ → Text → Option ℕ
digits_value n [] = some n
digits_value n (c ∷ s) =
    let rest = digits_value (n * 10 + (c - b'0')) s in if is_ascii_digit c then rest else none

abbrev below : ℕ → Option ℕ → Option ℕ
below bound none = none
below bound (some n) = if ltb n bound then some n else none

abbrev parse_digits : ℕ → Text → Option ℕ
parse_digits bound [] = none
parse_digits bound (c ∷ s) = below bound (digits_value 0 (c ∷ s))

-- `str::parse` of an unsigned integer below `bound`: one `+` may stand in front.
abbrev pub parse_unsigned : ℕ → Text → Option ℕ
parse_unsigned bound [] = none
parse_unsigned bound (c ∷ s) =
    if c == b'+' then parse_digits bound s else parse_digits bound (c ∷ s)

-- `HashMap::get`.
abbrev pub get {ℓ} : {V : Type ℓ} → Text → List (Text × V) → Option V
get key [] = none
get key ((k, v) ∷ rest) = if text_eq key k then some v else get key rest

-- `HashSet::contains`.
abbrev pub has : Text → List Text → Bool
has x [] = false
has x (y ∷ ys) = text_eq x y || has x ys

-- `Iterator::filter`.
abbrev pub filter {ℓ} : {A : Type ℓ} → (A → Bool) → List A → List A
filter p [] = []
filter p (x ∷ xs) = if p x then x ∷ filter p xs else filter p xs

-- `str::eq_ignore_ascii_case`.
abbrev pub eq_ignore_ascii_case : Text → Text → Bool
eq_ignore_ascii_case s t = text_eq (to_ascii_lowercase s) (to_ascii_lowercase t)
