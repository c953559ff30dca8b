-- ===== src/Common/Options.antt =====
-- What holds of the result of a call that may fail.
use mathlib.Core.Path.{◌≡◌, subst}
use mathlib.Core.Option.{Option, none, some, some-injective}

module _ {ℓ κ} {A : Type ℓ} (P : A → Type κ) where
  -- A result satisfies `P`, if there is one.
  abbrev pub Ensures : Option A → Type κ
  Ensures none = Unit
  Ensures (some a) = P a

  pub Ensures-some : (o : Option A) {a : A} → Ensures o → o ≡ some a → P a
  Ensures-some none h e = absurd (cc)
  Ensures-some (some b) {a} h e = subst P (some-injective b a e) h

-- A chain of calls that may fail, or run out of fuel.
infixl 5 ◌>>=◌
abbrev pub ◌>>=◌ {ℓ κ} : {A : Type ℓ} {B : Type κ} → Option A → (A → Option B) → Option B
none >>= f = none
some a >>= f = f a
