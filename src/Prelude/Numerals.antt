-- ===== src/Prelude/Numerals.antt =====
-- Python's `int(text)` over the ASCII digits: spaces around, a sign, and single underscores between
-- digits are allowed. The digits of other scripts are left out.
use Prim.Native.Nat.{ℕ, ◌+◌, ◌-◌, ◌*◌}
use Prim.Native.Char.{code}
use Prim.Native.String.{String}
use mathlib.Core.Path.{◌≡◌, refl}
use mathlib.Core.Bool.{Bool, true, false, ◌&&◌, ◌||◌}
use mathlib.Core.Option.{Option, none, some}
use proxy_loop.Prelude.Tests.{if◌then◌else◌, leb}
use proxy_loop.Prelude.Texts.{is_digit, is_char}
use proxy_loop.Prelude.Int.{ℤ, pos, negsuc}

abbrev is_space : ℕ → Bool
is_space c = is_char c 32 || (leb 9 c && leb c 13)

-- nothing but spaces is left
only_space : String → Bool
only_space String.[] = true
only_space (String.◌∷◌ c s) = is_space (code c) && only_space s

-- the digits from here on; an underscore stands between two digits
digits_from : Bool → ℕ → String → Option ℕ
unfolding only_space
digits_from in_number n String.[] = if in_number then some n else none
digits_from in_number n (String.◌∷◌ c s) =
    let d = is_digit (code c) in
    let again = digits_from d (if d then n * 10 + (code c - 48) else n) s in
    if d || (is_char (code c) b'_' && in_number)
    then again
    else if in_number && is_space (code c) && only_space s
    then some n
    else none

abbrev negated : Option ℕ → Option ℤ
negated none = none
negated (some n) = some (elim n [ ℕ.zero ↦ pos 0 | ℕ.suc m ↦ negsuc m ])

abbrev plain : Option ℕ → Option ℤ
plain none = none
plain (some n) = some (pos n)

unfoldable pub parse_int : String → Option ℤ
unfolding digits_from
parse_int String.[] = none
parse_int (String.◌∷◌ c s) =
    let after_space = parse_int s in
    if is_space (code c)
    then after_space
    else if is_char (code c) b'-'
    then negated (digits_from false 0 s)
    else if is_char (code c) b'+'
    then plain (digits_from false 0 s)
    else plain (digits_from false 0 (String.◌∷◌ c s))

parse_price : parse_int " 1_299 " ≡ some (pos 1299)
unfolding parse_int
parse_price = refl

parse_none : parse_int "12a" ≡ none
unfolding parse_int
parse_none = refl
