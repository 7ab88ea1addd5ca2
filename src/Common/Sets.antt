-- ===== src/Common/Sets.antt =====
-- Sets of texts as the lists of their members.
use Prim.Native.Nat.{◌≤◌, ◌<◌}
use mathlib.Core.Path.{◌≡◌, refl}
use mathlib.Core.Logic.{inl, inr}
use mathlib.Core.Bool.{Bool, true, false, not, ◌&&◌, ◌||◌}
use mathlib.Core.List.{List, [], ◌∷◌, ◌++◌}
use native.Mathlib.Omega.{arith}
use domain_status.Common.Lists.{length, any}
use domain_status.Common.Tests.{if◌then◌else◌, Bool-cases}
use domain_status.Common.Texts.{Text, text_eq_iff, test-respects}
use domain_status.Common.Split.{has, filter}

pub has-append : (x : Text) (xs ys : List Text) → has x (xs ++ ys) ≡ (has x xs || has x ys)
has-append x [] ys = refl
has-append x (y ∷ xs) ys = ground (arith, has-append x xs ys)

-- Membership in what a filter keeps.
pub has-filter :
    (p : Text → Bool) (x : Text) (xs : List Text) → has x (filter p xs) ≡ (has x xs && p x)
has-filter p x [] = refl
has-filter p x (y ∷ ys) = ground (arith, has-filter p x ys, test-respects p x y)

-- A member that a test holds of.
pub any-has :
    (p : Text → Bool) (xs : List Text)
    → any p xs ≡ true
    → (x : Text) × (has x xs ≡ true) × (p x ≡ true)
any-has p [] h = cc
any-has p (x ∷ xs) h = elim (Bool-cases (p x)) [
  | inl here ↦ (x, ground (arith, text_eq_iff x x), here)
  | inr other ↦
      let found = any-has p xs (ground arith) in (found.0, ground (arith, found.1), found.2)
]

pub has-any :
    (p : Text → Bool) (x : Text) (xs : List Text) → has x xs ≡ true → p x ≡ true → any p xs ≡ true
has-any p x [] member h = cc
has-any p x (y ∷ ys) member h = ground (arith, test-respects p x y, has-any p x ys)

-- Each member of the first list is a member of the second.
abbrev pub Includes : List Text → List Text → Type 0
Includes xs ys = (x : Text) → has x xs ≡ true → has x ys ≡ true

pub any-Includes :
    (p : Text → Bool) (xs ys : List Text) → Includes xs ys → any p xs ≡ true → any p ys ≡ true
any-Includes p xs ys included h =
    let found = any-has p xs h in has-any p found.0 ys (included found.0 found.1) found.2

pub filter-length :
    (p : Text → Bool) (xs : List Text)
    → (length (filter p xs) ≤ length xs)
      × (any (λ x. not (p x)) xs ≡ true → length (filter p xs) < length xs)
filter-length p [] = (omega arith, λ h. cc)
filter-length p (x ∷ xs) =
    let ih = filter-length p xs in
    elim (Bool-cases (p x)) [
      | inl kept ↦ (
        rw (kept, if◌then◌else◌) (omega arith),
        λ h. rw (kept, if◌then◌else◌) (let less = ih.1 (ground arith) in omega arith),
      )
      | inr dropped ↦ (
        rw (dropped, if◌then◌else◌) (omega arith),
        λ h. rw (dropped, if◌then◌else◌) (omega arith),
      )
    ]

pub filter-all :
    (p : Text → Bool) (xs : List Text) → any (λ x. not (p x)) xs ≡ false → filter p xs ≡ xs
filter-all p [] h = refl
filter-all p (x ∷ xs) h = ground (arith, filter-all p xs)

pub all-has :
    (p : Text → Bool) (x : Text) (xs : List Text)
    → any (λ y. not (p y)) xs ≡ false
    → has x xs ≡ true
    → p x ≡ true
all-has p x [] h member = cc
all-has p x (y ∷ ys) h member = ground (arith, test-respects p x y, all-has p x ys)
