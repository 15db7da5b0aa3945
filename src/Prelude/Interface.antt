-- ===== src/Prelude/Interface.antt =====
-- Equality as an interface, its instances, and membership in a list of seen values.
use Prim.Native.Nat.{ℕ}
use Prim.Native.String.{String}
use mathlib.Core.Path.{◌≡◌, refl}
use mathlib.Core.Logic.{◌↔◌}
use mathlib.Core.Bool.{Bool, true, false, ◌&&◌, ◌||◌}
use mathlib.Core.List.{List, [], ◌∷◌, ◌++◌}
use native.Mathlib.Omega.{arith}
use text.Mathlib.Text.{◌==◌ as str_eq}
use text.Mathlib.TextEquality.{eq_iff}
use orynelo.Prelude.Tests.{eqb, eqb_iff}

-- A Boolean test that decides equality.
pub record Equality {ℓ} (K : Type ℓ) : Type ℓ where
  pub same : K → K → Bool
  pub same_iff : (a b : K) → (same a b ≡ true) ↔ (a ≡ b)

instance abbrev pub number_equality : Equality ℕ
number_equality = record { same = eqb; same_iff = eqb_iff }

instance abbrev pub name_equality : Equality String
name_equality = record { same_iff = eq_iff; same = str_eq }

infix 50 ◌==◌
abbrev pub ◌==◌ {ℓ} : {K : Type ℓ} ⦃q : Equality K⦄ → K → K → Bool
◌==◌ ⦃q⦄ x y = q.same x y

pub str_iff : (s t : String) → ((s == t) ≡ true) ↔ (s ≡ t)
str_iff = eq_iff

-- Byte strings and texts walked character by character.
abbrev pub Text : Type 0
Text = List ℕ

abbrev text_eqb : Text → Text → Bool
text_eqb [] [] = true
text_eqb [] (b ∷ t) = false
text_eqb (a ∷ s) [] = false
text_eqb (a ∷ s) (b ∷ t) = eqb a b && text_eqb s t

pub text_eqb_iff : (s t : Text) → (text_eqb s t ≡ true) ↔ (s ≡ t)
text_eqb_iff [] [] = ((λ _. refl), (λ _. refl))
text_eqb_iff [] (b ∷ t) = ((λ h. cc), (λ h. cc))
text_eqb_iff (a ∷ s) [] = ((λ h. cc), (λ h. cc))
text_eqb_iff (a ∷ s) (b ∷ t) = ground (arith, text_eqb_iff s t)

instance abbrev pub text_equality : Equality Text
text_equality = record { same = text_eqb; same_iff = text_eqb_iff }

module _ {ℓ} {A : Type ℓ} ⦃q : Equality A⦄ where
  abbrev pub contains : List A → A → Bool
  contains [] a = false
  contains (x ∷ xs) a = q.same x a || contains xs a

  -- No value stands twice.
  abbrev pub IsDistinct : List A → Type 0
  IsDistinct [] = Unit
  IsDistinct (x ∷ xs) = (contains xs x ≡ false) × IsDistinct xs

  pub contains-append :
      (xs ys : List A) (a : A) → contains (xs ++ ys) a ≡ (contains xs a || contains ys a)
  contains-append [] ys a = refl
  contains-append (x ∷ xs) ys a = ground (arith, contains-append xs ys a)
