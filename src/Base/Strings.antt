-- ===== src/Base/Strings.antt =====
-- Go strings as lists of bytes, with the functions of the packages `strings`, `strconv`, `fmt` and
-- `net/url` that the program calls.
pub mod Laws
use Prim.Native.Nat.{ℕ, zero, suc, ◌+◌, ◌-◌, ◌*◌, ◌/◌, ◌%◌, ◌^◌}
use Prim.Native.Char.{code}
use Prim.Native.String.{String}
use mathlib.Core.Bool.{Bool, true, false, ◌&&◌, ◌||◌, not}
use mathlib.Core.Option.{Option, none, some}
use mathlib.Core.List.{List, [], ◌∷◌, ◌++◌, map, foldl}
use nginxpm_operator.Base.Tests.{if◌then◌else◌, leb, ltb}
use nginxpm_operator.Base.Eq.{◌==◌, nat-Eq, text-Eq}
use nginxpm_operator.Base.Int.{ℤ, pos, negsuc}

abbrev pub Text : Type 0
Text = List ℕ

-- The bytes of an ASCII literal.
abbrev pub txt : String → Text
txt String.[] = []
txt (String.◌∷◌ c s) = code c ∷ txt s

cons_head : ℕ → List Text → List Text
cons_head b [] = (b ∷ []) ∷ []
cons_head b (part ∷ parts) = (b ∷ part) ∷ parts

-- `strings.Split(s, sep)` for a separator of one byte.
unfoldable pub split : ℕ → Text → List Text
unfolding cons_head
split sep [] = [] ∷ []
split sep (b ∷ s) = let rest = split sep s in if b == sep then [] ∷ rest else cons_head b rest

-- `strings.Join(parts, sep)`
unfoldable pub join : Text → List Text → Text
join sep [] = []
join sep (part ∷ []) = part
join sep (part ∷ next ∷ parts) = part ++ (sep ++ join sep (next ∷ parts))

-- `strings.TrimSuffix(s, suffix)`: a tail of `s` that equals the suffix is dropped.
unfoldable pub trim_suffix : Text → Text → Text
trim_suffix suffix [] = []
trim_suffix suffix (b ∷ s) = if b ∷ s == suffix then [] else b ∷ trim_suffix suffix s

-- `strings.HasPrefix(s, prefix)`
unfoldable pub has_prefix : Text → Text → Bool
has_prefix s [] = true
has_prefix [] (c ∷ prefix) = false
has_prefix (b ∷ s) (c ∷ prefix) = b == c && has_prefix s prefix

-- `strings.Contains(s, sub)`
unfoldable pub contains_text : Text → Text → Bool
contains_text [] sub = has_prefix [] sub
contains_text (b ∷ s) sub = has_prefix (b ∷ s) sub || contains_text s sub

-- `strings.ToLower` on ASCII bytes; the others stay.
unfoldable pub to_lower : Text → Text
to_lower = map (λ b. if leb b'A' b && leb b b'Z' then b + 32 else b)

-- What stands before and after the last `sep`, as `strings.LastIndex` and two slices give it.
unfoldable pub split_last : ℕ → Text → Option (Text × Text)
split_last sep [] = none
split_last sep (b ∷ s) = elim (split_last sep s) [
  | some (before, after) ↦ some (b ∷ before, after)
  | none ↦ if b == sep then some ([], s) else none
]

is_digit : ℕ → Bool
is_digit b = leb b'0' b && leb b b'9'

all_digits : Text → Bool
unfolding is_digit
all_digits [] = true
all_digits (b ∷ s) = is_digit b && all_digits s

pub digits_value : Text → ℕ
digits_value = foldl (λ n b. n * 10 + (b - b'0')) 0

-- Digits, at least one, of a value that fits the bound.
number_below : ℕ → Text → Bool
unfolding all_digits digits_value
number_below bound [] = false
number_below bound (b ∷ s) = all_digits (b ∷ s) && ltb (digits_value (b ∷ s)) bound

-- `_, err := strconv.Atoi(s); err == nil`, with an `int` of 64 bits.
unfoldable pub is_int : Text → Bool
unfolding number_below
is_int [] = false
is_int (b ∷ s) =
    if b == b'-'
    then number_below (2 ^ 63 + 1) s
    else if b == b'+'
    then number_below (2 ^ 63) s
    else number_below (2 ^ 63) (b ∷ s)

-- The digits of `n` in front of `acc`, with fuel.
decimal_loop : ℕ → ℕ → Text → Text
decimal_loop zero n acc = acc
decimal_loop (suc fuel) n acc =
    let more = decimal_loop fuel (n / 10) ((b'0' + n % 10) ∷ acc) in
    if ltb n 10 then (b'0' + n) ∷ acc else more

unfoldable pub decimal_nat : ℕ → Text
unfolding decimal_loop
decimal_nat n = decimal_loop (suc n) n []

-- `fmt.Sprintf("%d", z)`
unfoldable pub decimal : ℤ → Text
unfolding decimal_nat
decimal (pos n) = decimal_nat n
decimal (negsuc n) = b'-' ∷ decimal_nat (n + 1)

hex_digit : ℕ → ℕ
hex_digit n = if ltb n 10 then b'0' + n else b'A' + (n - 10)

is_unreserved : ℕ → Bool
unfolding is_digit
is_unreserved b =
    is_digit b
    || (leb b'a' b && leb b b'z')
    || (leb b'A' b && leb b b'Z')
    || b == b'-'
    || b == b'_'
    || b == b'.'
    || b == b'~'

-- `url.QueryEscape(s)`
unfoldable pub query_escape : Text → Text
unfolding is_unreserved hex_digit
query_escape [] = []
query_escape (b ∷ s) =
    (if is_unreserved b
      then b ∷ []
      else if b == b' '
      then b'+' ∷ []
      else b'%' ∷ hex_digit (b / 16) ∷ hex_digit (b % 16) ∷ [])
    ++ query_escape s
