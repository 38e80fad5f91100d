-- ===== src/Common/Outcome.antt =====
-- Results of fallible operations: Rust's `Result`.
use mathlib.Core.Path.{◌≡◌, refl, subst}
use mathlib.Core.Bool.{Bool, true, false}
use oxiterm.Common.Checks.{if◌then◌else◌}

pub data Result {ℓ κ} (E : Type ℓ) (A : Type κ) : Type (ℓ ⊔ κ) where
  ok : A → Result E A
  err : E → Result E A

infixl 5 ◌>>=◌
abbrev pub ◌>>=◌ {ℓ κ μ} :
    {E : Type ℓ} {A : Type κ} {B : Type μ} → Result E A → (A → Result E B) → Result E B
ok a >>= f = f a
err e >>= f = err e

-- Whatever a result gives has a property.
pub record Gives {ℓ κ μ} {E : Type ℓ} {A : Type κ} (P : A → Type μ) (r : Result E A)
    : Type (ℓ ⊔ κ ⊔ μ) where
  pub gives : (a : A) → r ≡ ok a → P a

module _ {ℓ κ μ} {E : Type ℓ} {A : Type κ} (P : A → Type μ) where
  pub err-Gives : (e : E) → Gives P (err e)
  err-Gives e = record { gives = λ a h. cc }

  pub ok-Gives : (a : A) → P a → Gives {E = E} P (ok a)
  ok-Gives a p = record { gives = λ b h. let e : a ≡ b = cc in subst (λ c. P c) e p }

  pub if_Gives :
      (b : Bool) (r q : Result E A) → Gives P r → Gives P q → Gives P (if b then r else q)
  if_Gives true r q v w = v
  if_Gives false r q v w = w

module _ {ℓ κ μ κ' μ'} {E : Type ℓ} {A : Type κ} {B : Type κ'} (P : A → Type μ)
    (Q : B → Type μ') where
  pub then_Gives :
      (r : Result E A) (f : A → Result E B)
      → Gives P r
      → ((a : A) → P a → Gives Q (f a))
      → Gives Q (elim r [ ok a ↦ f a | err e ↦ err e ])
  then_Gives (ok a) f v w = w a (v.gives a refl)
  then_Gives (err e) f v w = err-Gives Q e
