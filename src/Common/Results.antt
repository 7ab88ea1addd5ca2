-- ===== src/Common/Results.antt =====
-- Rust's `Result`, with `?` as bind.
use mathlib.Core.Path.{◌≡◌, refl}
use mathlib.Core.Logic.{◌⊎◌, inl, inr}

pub data Result {ℓ κ} (A : Type ℓ) (E : Type κ) : Type (ℓ ⊔ κ) where
  ok : A → Result A E
  err : E → Result A E

infixl 5 ◌>>=◌ ◌>>◌
abbrev pub ◌>>=◌ {ℓ κ ρ} :
    {A : Type ℓ} {B : Type κ} {E : Type ρ} → Result A E → (A → Result B E) → Result B E
ok a >>= f = f a
err e >>= f = err e

abbrev pub ◌>>◌ {ℓ κ ρ} :
    {A : Type ℓ} {B : Type κ} {E : Type ρ} → Result A E → Result B E → Result B E
m >> k = m >>= λ _. k

pub >>=-eq-ok {ℓ κ ρ} :
    {A : Type ℓ} {B : Type κ} {E : Type ρ} (r : Result A E) (next : A → Result B E) {out : B}
    → (r >>= next) ≡ ok out
    → (got : A) × (r ≡ ok got) × (next got ≡ ok out)
>>=-eq-ok (err e) next h = cc
>>=-eq-ok (ok got) next h = (got, refl, h)

pub Result-cases {ℓ κ} :
    {A : Type ℓ} {E : Type κ} (r : Result A E) → ((a : A) × (r ≡ ok a)) ⊎ ((e : E) × (r ≡ err e))
Result-cases (ok a) = inl (a, refl)
Result-cases (err e) = inr (e, refl)
