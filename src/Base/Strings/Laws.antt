-- ===== src/Base/Strings/Laws.antt =====
-- Laws of the text functions: splitting and joining, trimming, and the decimal print.
use Prim.Native.Nat.{ℕ, zero, suc, ◌+◌, ◌*◌, ◌/◌, ◌%◌, ◌<◌}
use mathlib.Core.Path.{◌≡◌, refl, sym, ap, ◌∙◌}
use mathlib.Core.Logic.{◌≢◌, inl, inr}
use mathlib.Core.Bool.{true, false}
use mathlib.Core.List.{List, [], ◌∷◌, ◌++◌, append-nil, append_assoc, foldl-append}
use native.Mathlib.Omega.{arith}
use nginxpm_operator.Base.Tests.{Bool-cases, ltb, nat_eq_iff}
use nginxpm_operator.Base.Eq.{◌==◌, nat-Eq}
use nginxpm_operator.Base.Strings.{
  Text, split, join, cons_head, decimal_loop, decimal_nat, digits_value,
}

pub split-ne-nil : (sep : ℕ) (s : Text) → split sep s ≢ []
unfolding split
split-ne-nil sep [] = ground arith
split-ne-nil sep (b ∷ s) = ground (arith, split-ne-nil sep s)

join-cons_head :
    (sep : ℕ) (b : ℕ) (parts : List Text)
    → join (sep ∷ []) (cons_head b parts) ≡ b ∷ join (sep ∷ []) parts
unfolding join cons_head
join-cons_head sep b [] = refl
join-cons_head sep b (part ∷ []) = refl
join-cons_head sep b (part ∷ next ∷ parts) = refl

join-nil_cons :
    (sep : ℕ) (parts : List Text)
    → parts ≢ []
    → join (sep ∷ []) ([] ∷ parts) ≡ sep ∷ join (sep ∷ []) parts
unfolding join
join-nil_cons sep [] h = absurd (h refl)
join-nil_cons sep (part ∷ parts) h = refl

split_at_sep : (sep b : ℕ) (s : Text) → (b == sep) ≡ true → split sep (b ∷ s) ≡ [] ∷ split sep s
unfolding split
split_at_sep sep b s e = rw e

split_inside :
    (sep b : ℕ) (s : Text) → (b == sep) ≡ false → split sep (b ∷ s) ≡ cons_head b (split sep s)
unfolding split
split_inside sep b s e = rw e

-- Joining the parts of a split gives the text back.
pub join-split : (sep : ℕ) (s : Text) → join (sep ∷ []) (split sep s) ≡ s
unfolding join
join-split sep [] = unfold split in refl
join-split sep (b ∷ s) = elim (Bool-cases (b == sep)) [
  | inl e ↦ rw (split_at_sep sep b s e) (
      rw (join-nil_cons sep (split sep s) (split-ne-nil sep s))
        (ground (arith, join-split sep s, nat_eq_iff b sep)))
  | inr e ↦
      rw (split_inside sep b s e)
        (join-cons_head sep b (split sep s) ∙ ap (λ (t : Text). b ∷ t) (join-split sep s))
]

digits_value-append :
    (s : Text) (d : ℕ) → digits_value (s ++ (b'0' + d) ∷ []) ≡ digits_value s * 10 + d
unfolding digits_value
digits_value-append s d = rw foldl-append (omega arith)

abbrev Prints : ℕ → Text → Text → Type 0
Prints n acc printed = (digits : Text) × (printed ≡ digits ++ acc) × (digits_value digits ≡ n)

Prints-digit : (n : ℕ) (acc : Text) → Prints n acc ((b'0' + n) ∷ acc)
unfolding digits_value
Prints-digit n acc = ((b'0' + n) ∷ [], refl, omega arith)

Prints-more :
    (n : ℕ) (acc printed : Text)
    → Prints (n / 10) ((b'0' + n % 10) ∷ acc) printed
    → Prints n acc printed
Prints-more n acc printed (digits, shape, value) = (
  digits ++ (b'0' + n % 10) ∷ [],
  shape ∙ sym (append_assoc digits ((b'0' + n % 10) ∷ []) acc),
  digits_value-append digits (n % 10) ∙ omega arith,
)

decimal_loop-Prints : (fuel n : ℕ) (acc : Text) → n < fuel → Prints n acc (decimal_loop fuel n acc)
unfolding decimal_loop
decimal_loop-Prints zero n acc h = elim h [ ]
decimal_loop-Prints (suc fuel) n acc h = elim (Bool-cases (ltb n 10)) [
  | inl e ↦ rw e (Prints-digit n acc)
  | inr e ↦ rw e (
      Prints-more n acc _
        (decimal_loop-Prints fuel (n / 10) ((b'0' + n % 10) ∷ acc) (ground arith)))
]

-- The digits that are printed have the number for their value: the fuel suffices.
pub digits_value-decimal_nat : (n : ℕ) → digits_value (decimal_nat n) ≡ n
unfolding decimal_nat
digits_value-decimal_nat n =
    let r = decimal_loop-Prints (suc n) n [] (omega arith) in rw (r.1) (rw append-nil (r.2))
