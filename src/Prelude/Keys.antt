-- ===== src/Prelude/Keys.antt =====
-- Types with `===`, as instances, and the concatenation of texts.
use Prim.Native.Nat.{ℕ}
use Prim.Native.String.{String, ◌++◌ as cat}
use mathlib.Core.Path.{◌≡◌, refl}
use mathlib.Core.Logic.{◌↔◌}
use mathlib.Core.Bool.{Bool, true}
use text.Mathlib.Text.{◌==◌ as str_eq}
use text.Mathlib.TextEquality.{eq_iff}
use dsh_assistant.Prelude.Tests.{nat_beq, nat_beq_iff}

-- `===` at a type, which agrees with equality there
pub record Equality {ℓ} (K : Type ℓ) : Type ℓ where
  pub test : K → K → Bool
  pub agrees : (x y : K) → (test x y ≡ true) ↔ (x ≡ y)

instance abbrev pub text_equality : Equality String
text_equality = record { test = str_eq; agrees = eq_iff }

instance abbrev pub number_equality : Equality ℕ
number_equality = record { test = nat_beq; agrees = nat_beq_iff }

module _ {ℓ} {K : Type ℓ} ⦃same : Equality K⦄ where
  infix 50 ◌==◌
  abbrev pub ◌==◌ : K → K → Bool
  x == y = same.test x y

  pub ==_refl : (x : K) → (x == x) ≡ true
  ==_refl x = (same.agrees x x).1 refl

-- a template literal is a chain of these
infixr 65 ◌&◌
abbrev pub ◌&◌ : String → String → String
s & t = cat s t
