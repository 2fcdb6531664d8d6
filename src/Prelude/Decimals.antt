-- ===== src/Prelude/Decimals.antt =====
-- Python's `Decimal` on plain numbers: digits, and how many of them stand after the point.
use Prim.Native.Nat.{ℕ, ◌+◌, ◌-◌, ◌*◌, ◌^◌, compare, Ordering}
use Prim.Native.Char.{code}
use Prim.Native.String.{String}
use mathlib.Core.Path.{◌≡◌, refl}
use mathlib.Core.Bool.{Bool, true, false, ◌&&◌}
use mathlib.Core.Option.{Option, none, some}
use mathlib.Core.List.{List, [], ◌∷◌}
use proxy_loop.Prelude.Tests.{if◌then◌else◌}
use proxy_loop.Prelude.Texts.{is_digit, is_char}

pub record Decimal : Type 0 where
  pub digits : ℕ
  pub places : ℕ

-- `a == b`: 68 and 68.00 are one number
abbrev pub same_number : Decimal → Decimal → Bool
same_number a b = elim (compare (a.digits * 10 ^ b.places) (b.digits * 10 ^ a.places)) [
  | Ordering.eq ↦ true
  | _ ↦ false
]

-- the digits read so far: none, a whole number, or one with a point
pub data Mode : Type 0 where
  outside : Mode
  whole : ℕ → Mode
  part : ℕ → ℕ → Mode

abbrev starts_digit : String → Bool
starts_digit String.[] = false
starts_digit (String.◌∷◌ c s) = is_digit (code c)

next : Mode → ℕ → String → Mode
next outside c s = if is_digit c then whole (c - 48) else outside
next (whole n) c s =
    if is_digit c
    then whole (n * 10 + (c - 48))
    else if is_char c b'.' && starts_digit s
    then part n 0
    else outside
next (part n k) c s = if is_digit c then part (n * 10 + (c - 48)) (k + 1) else outside

abbrev decimal_of : Mode → Option Decimal
decimal_of outside = none
decimal_of (whole n) = some (record { digits = n; places = 0 })
decimal_of (part n k) = some (record { digits = n; places = k })

abbrev ends : Mode → Bool
ends outside = true
ends _ = false

-- the number that the mode held, where the next one holds none
abbrev emit : Mode → Mode → List Decimal → List Decimal
emit m n rest = if ends n then elim (decimal_of m) [ none ↦ rest | some d ↦ d ∷ rest ] else rest

found : Mode → String → List Decimal
unfolding next
found m String.[] = emit m outside []
found m (String.◌∷◌ c s) = let n = next m (code c) s in let rest = found n s in emit m n rest

-- `re.findall(r"\d+(?:\.\d+)?", text)`, as numbers
unfoldable pub find_numbers : String → List Decimal
unfolding found
find_numbers s = found outside s

plain_from : Mode → String → Option Decimal
unfolding next
plain_from m String.[] = decimal_of m
plain_from m (String.◌∷◌ c s) =
    let n = next m (code c) s in let rest = plain_from n s in if ends n then none else rest

-- `Decimal(text)` of digits, with a point and digits or without
unfoldable pub parse_decimal : String → Option Decimal
unfolding plain_from
parse_decimal s = plain_from outside s

find_prices :
    find_numbers "at 68.50. or 70 a"
    ≡ (record { digits = 6850; places = 2 } ∷ record { digits = 70; places = 0 } ∷ [])
unfolding find_numbers
find_prices = refl

parse_dollars : parse_decimal "68.00" ≡ some (record { digits = 6800; places = 2 })
unfolding parse_decimal
parse_dollars = refl

parse_words : parse_decimal "68x" ≡ none
unfolding parse_decimal
parse_words = refl
