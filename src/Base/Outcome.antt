-- ===== src/Base/Outcome.antt =====
-- Go's `(value, error)` results. A call that panics returns neither, so `panic` is a third case.
use mathlib.Core.Path.{◌≡◌, refl}
use mathlib.Core.Bool.{Bool, true, false}

pub data Result {ℓ κ} (E : Type ℓ) (A : Type κ) : Type (ℓ ⊔ κ) where
  ok : A → Result E A
  err : E → Result E A
  panic : Result E A

infixl 5 ◌>>=◌ ◌>>◌
abbrev pub ◌>>=◌ {ℓ κ μ} :
    {E : Type ℓ} {A : Type κ} {B : Type μ} → Result E A → (A → Result E B) → Result E B
ok a >>= f = f a
err e >>= f = err e
panic >>= f = panic

abbrev pub ◌>>◌ {ℓ κ} : {E : Type ℓ} {B : Type κ} → Result E (Unit {0}) → Result E B → Result E B
m >> k = m >>= λ _. k

-- `if b { panic(…) }`
abbrev pub panic_if {ℓ} : {E : Type ℓ} → Bool → Result E (Unit {0})
panic_if true = panic
panic_if false = ok tt

-- `if b { return err }`
abbrev pub fail_if {ℓ} : {E : Type ℓ} → Bool → E → Result E (Unit {0})
fail_if true e = err e
fail_if false e = ok tt

module _ {ℓ κ} {E : Type ℓ} {A : Type κ} where
  pub ok-injective : {a b : A} → ◌≡◌ {A = Result E A} (ok a) (ok b) → a ≡ b
  ok-injective e = cc

  pub err-ne-ok : {a : A} {e : E} → ◌≡◌ {A = Result E A} (err e) (ok a) → ⊥
  err-ne-ok e = cc

  pub err-injective : {d e : E} → ◌≡◌ {A = Result E A} (err d) (err e) → d ≡ e
  err-injective p = cc

  pub panic-ne-ok : {a : A} → ◌≡◌ {A = Result E A} panic (ok a) → ⊥
  panic-ne-ok e = cc

pub panic-ne-err {ℓ κ} : {E : Type ℓ} {A : Type κ} {e : E} → ◌≡◌ {A = Result E A} panic (err e) → ⊥
panic-ne-err e = cc

-- A chain succeeds only if its first part does.
pub bind-ok {ℓ κ μ} :
    {E : Type ℓ} {A : Type κ} {B : Type μ} (m : Result E A) (f : A → Result E B) (b : B)
    → (m >>= f) ≡ ok b
    → (a : A) × (m ≡ ok a) × (f a ≡ ok b)
bind-ok (ok a) f b e = (a, refl, e)
bind-ok (err x) f b e = absurd (err-ne-ok e)
bind-ok panic f b e = absurd (panic-ne-ok e)
