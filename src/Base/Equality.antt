-- ===== src/Base/Equality.antt =====
-- Equality tests for every type whose equality can be decided, and Go strings as lists of bytes.
use Prim.Native.Nat.{ℕ}
use Prim.Native.Char.{code}
use Prim.Native.String.{String}
use mathlib.Core.Path.{◌≡◌, refl}
use mathlib.Core.Logic.{ite}
use mathlib.Core.Bool.{Bool, true, false, ◌||◌}
use mathlib.Core.List.{List, [], ◌∷◌}
use native.Mathlib.Decide.{ℕ_discrete}

pub record Eq {ℓ} (A : Type ℓ) : Type ℓ where
  pub dec : Discrete A

module _ {ℓ} {A : Type ℓ} ⦃e : Eq A⦄ where
  infix 50 ◌==◌
  abbrev pub ◌==◌ : A → A → Bool
  a == b = ite (e.dec a b) true false

  unfoldable pub contains : A → List A → Bool
  contains x [] = false
  contains x (y ∷ ys) = x == y || contains x ys

-- The bytes of a Go string; `text` gives those of an ASCII literal.
abbrev pub Text : Type 0
Text = List ℕ

abbrev pub text : String → Text
text String.[] = []
text (String.◌∷◌ c s) = code c ∷ text s

Text-discrete : Discrete Text
Text-discrete = hlevel ℕ_discrete

-- Shut in proofs, where a split on `a == b` yields the equation or its negation.
instance unfoldable pub text_eq : Eq Text
unfolding Text-discrete ℕ_discrete
text_eq = record { dec = Text-discrete }

instance unfoldable pub nat_eq : Eq ℕ
unfolding ℕ_discrete
nat_eq = record { dec = ℕ_discrete }

check_eq : (text "ab" == text "ab") ≡ true
unfolding text_eq nat_eq
check_eq = refl

check_ne : (text "ab" == text "ac") ≡ false
unfolding text_eq nat_eq
check_ne = refl
