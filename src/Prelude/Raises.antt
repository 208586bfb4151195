-- ===== src/Prelude/Raises.antt =====
-- Code that may raise. An exception is its class; message texts are not modelled.
use Prim.Native.Nat.{ℕ}
use mathlib.Core.Path.{◌≡◌, refl}
use mathlib.Core.Logic.{◌⊎◌, inl, inr}

pub data Exc : Type 0 where
  value_error key_error permission_error type_error stop_iteration : Exc
  http_exception : ℕ → Exc

-- What code that may raise gives: an exception, or what it returns.
pub data Result {ℓ} (A : Type ℓ) : Type ℓ where
  err : Exc → Result A
  ok : A → Result A

infixl 5 ◌>>=◌
abbrev pub ◌>>=◌ {ℓ κ} : {A : Type ℓ} {B : Type κ} → Result A → (A → Result B) → Result B
err e >>= next = err e
ok a >>= next = next a

pub Result-cases {ℓ} :
    {A : Type ℓ} (r : Result A) → ((e : Exc) × (r ≡ err e)) ⊎ ((a : A) × (r ≡ ok a))
Result-cases (err e) = inl (e, refl)
Result-cases (ok a) = inr (a, refl)

-- What a chain returns, its first part returned something to go on with.
pub bind-ok {ℓ κ} :
    {A : Type ℓ} {B : Type κ} (r : Result A) (next : A → Result B) (b : B)
    → (r >>= next) ≡ ok b
    → (a : A) × (r ≡ ok a) × (next a ≡ ok b)
bind-ok (err e) next b h = cc
bind-ok (ok a) next b h = (a, refl, h)
