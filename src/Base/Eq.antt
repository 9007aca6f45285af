-- ===== src/Base/Eq.antt =====
-- Go's `==` on the types that the program compares.
use Prim.Native.Nat.{ℕ}
use mathlib.Core.Path.{◌≡◌, refl}
use mathlib.Core.Logic.{◌↔◌}
use mathlib.Core.Bool.{Bool, true, false, ◌&&◌}
use mathlib.Core.List.{List, [], ◌∷◌}
use native.Mathlib.Omega.{arith}
use nginxpm_operator.Base.Tests.{nat_eq, nat_eq_iff}

pub record Eq (A : Type 0) : Type 0 where
  pub beq : A → A → Bool
  pub beq_iff : (a b : A) → (beq a b ≡ true) ↔ (a ≡ b)

infix 50 ◌==◌
abbrev pub ◌==◌ : {A : Type 0} ⦃e : Eq A⦄ → A → A → Bool
◌==◌ ⦃e⦄ = e.beq

instance abbrev pub nat-Eq : Eq ℕ
nat-Eq = record { beq = nat_eq; beq_iff = nat_eq_iff }

module _ {A : Type 0} ⦃e : Eq A⦄ where
  pub eq_self : (a : A) → (a == a) ≡ true
  eq_self a = (e.beq_iff a a).1 refl

  pub eq→≡ : (a b : A) → (a == b) ≡ true → a ≡ b
  eq→≡ a b = (e.beq_iff a b).0

unfoldable pub list_eq : {A : Type 0} → (A → A → Bool) → List A → List A → Bool
list_eq f [] [] = true
list_eq f [] (y ∷ ys) = false
list_eq f (x ∷ xs) [] = false
list_eq f (x ∷ xs) (y ∷ ys) = f x y && list_eq f xs ys

-- Strings are lists of bytes, and are compared byte by byte.
unfoldable pub text_eq : List ℕ → List ℕ → Bool
unfolding list_eq
text_eq = list_eq nat_eq

pub text_eq_iff : (s t : List ℕ) → (text_eq s t ≡ true) ↔ (s ≡ t)
unfolding text_eq list_eq
text_eq_iff [] [] = ground arith
text_eq_iff [] (d ∷ t) = ground arith
text_eq_iff (c ∷ s) [] = ground arith
text_eq_iff (c ∷ s) (d ∷ t) = ground (arith, text_eq_iff s t)

instance abbrev pub text-Eq : Eq (List ℕ)
text-Eq = record { beq = text_eq; beq_iff = text_eq_iff }
