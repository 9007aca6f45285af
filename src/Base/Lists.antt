-- ===== src/Base/Lists.antt =====
-- Lists measured by native numbers, and the tests that Go's `slices` package and the program's
-- own loops make.
use Prim.Native.Nat.{ℕ, suc}
use mathlib.Core.Path.{◌≡◌, refl, sym}
use mathlib.Core.Logic.{◌⊎◌, inl, inr}
use mathlib.Core.Bool.{Bool, true, false, ◌&&◌, ◌||◌}
use mathlib.Core.Option.{Option, none, some}
use mathlib.Core.List.{List, [], ◌∷◌, ◌++◌}
use native.Mathlib.Omega.{arith}
use nginxpm_operator.Base.Tests.{if◌then◌else◌, Bool-cases}
use nginxpm_operator.Base.Eq.{Eq, ◌==◌}

module _ {ℓ} {A : Type ℓ} where
  abbrev pub length : List A → ℕ
  length [] = 0
  length (x ∷ xs) = suc (length xs)

  -- `len(xs) == 0`
  abbrev pub is_empty : List A → Bool
  is_empty [] = true
  is_empty (x ∷ xs) = false

  -- `xs[0]`, where the program has tested `len(xs) > 0`.
  abbrev pub head? : List A → Option A
  head? [] = none
  head? (x ∷ xs) = some x

  -- The first element that passes a test, as a loop with an early `return &x` finds it.
  unfoldable pub find : (A → Bool) → List A → Option A
  find p [] = none
  find p (x ∷ xs) = if p x then some x else find p xs

  -- A loop that returns or breaks at the first element that passes a test.
  -- The elements that pass a test, in order.
  unfoldable pub filter : (A → Bool) → List A → List A
  filter p [] = []
  filter p (x ∷ xs) = let rest = filter p xs in if p x then x ∷ rest else rest

  unfoldable pub any : (A → Bool) → List A → Bool
  any p [] = false
  any p (x ∷ xs) = p x || any p xs

  unfoldable pub all : (A → Bool) → List A → Bool
  all p [] = true
  all p (x ∷ xs) = p x && all p xs

  abbrev pub All {κ} : (A → Type κ) → List A → Type κ
  All P [] = Unit
  All P (x ∷ xs) = P x × All P xs

module _ {A : Type 0} where
  -- Membership by recursion, with its witness.
  abbrev pub In : A → List A → Type 0
  In a [] = ⊥
  In a (x ∷ xs) = (a ≡ x) ⊎ In a xs

  pub In-append_left : (a : A) (xs ys : List A) → In a xs → In a (xs ++ ys)
  In-append_left a [] ys h = absurd h
  In-append_left a (x ∷ xs) ys (inl e) = inl e
  In-append_left a (x ∷ xs) ys (inr h) = inr (In-append_left a xs ys h)

  pub In-append_right : (a : A) (xs ys : List A) → In a ys → In a (xs ++ ys)
  In-append_right a [] ys h = h
  In-append_right a (x ∷ xs) ys h = inr (In-append_right a xs ys h)

  pub In-append : (a : A) (xs ys : List A) → In a (xs ++ ys) → In a xs ⊎ In a ys
  In-append a [] ys h = inr h
  In-append a (x ∷ xs) ys (inl e) = inl (inl e)
  In-append a (x ∷ xs) ys (inr h) = elim (In-append a xs ys h) [
    | inl l ↦ inl (inr l)
    | inr r ↦ inr r
  ]

  pub find-some : (p : A → Bool) (xs : List A) (a : A) → find p xs ≡ some a → In a xs × (p a ≡ true)
  unfolding find
  find-some p [] a h = cc
  find-some p (x ∷ xs) a h = elim (Bool-cases (p x)) [
    | inl e ↦ let q : x ≡ a = ground arith in (inl (sym q), rw (← q) e)
    | inr e ↦ let r = find-some p xs a (ground arith) in (inr r.0, r.1)
  ]

  pub find-none : (p : A → Bool) (xs : List A) → find p xs ≡ none → All (λ a. p a ≡ false) xs
  unfolding find
  find-none p [] h = tt
  find-none p (x ∷ xs) h = elim (Bool-cases (p x)) [
    | inl e ↦ absurd (ground arith)
    | inr e ↦ (e, find-none p xs (ground arith))
  ]

module _ {A : Type 0} ⦃e : Eq A⦄ where
  -- `slices.Contains(xs, a)`
  unfoldable pub contains : List A → A → Bool
  contains [] a = false
  contains (x ∷ xs) a = x == a || contains xs a

  pub contains→In : (xs : List A) (a : A) → contains xs a ≡ true → In a xs
  unfolding contains
  contains→In [] a h = cc
  contains→In (x ∷ xs) a h = elim (Bool-cases (x == a)) [
    | inl q ↦ inl (ground (arith, e.beq_iff x a))
    | inr q ↦ inr (contains→In xs a (ground arith))
  ]

  pub In→contains : (xs : List A) (a : A) → In a xs → contains xs a ≡ true
  unfolding contains
  In→contains [] a h = absurd h
  In→contains (x ∷ xs) a (inl q) = ground (arith, e.beq_iff x a)
  In→contains (x ∷ xs) a (inr h) = ground (arith, In→contains xs a h)

  abbrev pub NoRepeat : List A → Type 0
  NoRepeat [] = Unit
  NoRepeat (x ∷ xs) = (contains xs x ≡ false) × NoRepeat xs

  pub contains-snoc :
      (xs : List A) (y a : A) → contains (xs ++ y ∷ []) a ≡ (contains xs a || y == a)
  unfolding contains
  contains-snoc [] y a = ground arith
  contains-snoc (x ∷ xs) y a = rw (contains-snoc xs y a) (ground arith)

  -- An element that is not in a list goes to the end of it.
  pub NoRepeat-snoc :
      (xs : List A) (y : A) → contains xs y ≡ false → NoRepeat xs → NoRepeat (xs ++ y ∷ [])
  unfolding contains
  NoRepeat-snoc [] y h n = (refl, tt)
  NoRepeat-snoc (x ∷ xs) y h n = (
    rw (contains-snoc xs y x) (ground (arith, e.beq_iff x y, e.beq_iff y x, n.0)),
    NoRepeat-snoc xs y (ground arith) n.1,
  )

pub All-snoc {ℓ κ} :
    {A : Type ℓ} (P : A → Type κ) (xs : List A) (y : A) → All P xs → P y → All P (xs ++ y ∷ [])
All-snoc P [] y h p = (p, tt)
All-snoc P (x ∷ xs) y (q, h) p = (q, All-snoc P xs y h p)
