-- ===== src/Prelude/Texts.antt =====
-- Texts: the operations of `str` that the source uses, over the characters of a native text.
use Prim.Native.Nat.{ℕ, zero, suc, ◌+◌, ◌-◌, ◌*◌, ◌/◌, ◌%◌, compare, Ordering}
use Prim.Native.Char.{Char, code}
use Prim.Native.String.{String}
use mathlib.Core.Path.{◌≡◌, refl}
use mathlib.Core.Bool.{Bool, true, false, ◌&&◌, ◌||◌}
use native.Mathlib.Omega.{arith}
use proxy_loop.Prelude.Tests.{leb, if◌then◌else◌}

-- `len(s)`
abbrev pub len : String → ℕ
len String.[] = 0
len (String.◌∷◌ c s) = suc (len s)

-- `s + t`
abbrev pub join : String → String → String
join String.[] t = t
join (String.◌∷◌ c s) t = String.◌∷◌ c (join s t)

-- every character satisfies the test
abbrev pub every : (ℕ → Bool) → String → Bool
every p String.[] = true
every p (String.◌∷◌ c s) = p (code c) && every p s

-- the character classes of the patterns
abbrev pub is_digit : ℕ → Bool
is_digit c = leb b'0' c && leb c b'9'

abbrev pub is_lower : ℕ → Bool
is_lower c = leb b'a' c && leb c b'z'

abbrev pub is_upper : ℕ → Bool
is_upper c = leb b'A' c && leb c b'Z'

abbrev pub is_char : ℕ → ℕ → Bool
is_char c d = elim (compare c d) [ Ordering.eq ↦ true | _ ↦ false ]

abbrev pub is_alnum : ℕ → Bool
is_alnum c = is_digit c || is_lower c || is_upper c

-- `s.startswith(p)`
unfoldable pub has_prefix : String → String → Bool
has_prefix String.[] s = true
has_prefix (String.◌∷◌ d p) String.[] = false
has_prefix (String.◌∷◌ d p) (String.◌∷◌ c s) = is_char (code d) (code c) && has_prefix p s

-- `p in s`
unfoldable pub contains : String → String → Bool
unfolding has_prefix
contains p String.[] = has_prefix p ""
contains p (String.◌∷◌ c s) = has_prefix p (String.◌∷◌ c s) || contains p s

-- the characters that satisfy the test
abbrev pub keep_chars : (ℕ → Bool) → String → String
keep_chars p String.[] = ""
keep_chars p (String.◌∷◌ c s) =
    let rest = keep_chars p s in if p (code c) then String.◌∷◌ c rest else rest

-- `s.isdigit()`, of ASCII digits
abbrev pub is_digits : String → Bool
is_digits String.[] = false
is_digits (String.◌∷◌ c s) = every is_digit (String.◌∷◌ c s)

-- `int(s)` of digits, after those already read
unfoldable pub digits_value : ℕ → String → ℕ
digits_value read String.[] = read
digits_value read (String.◌∷◌ c s) = digits_value (10 * read + (code c - b'0')) s

abbrev has_char : ℕ → String → Bool
has_char d String.[] = false
has_char d (String.◌∷◌ c s) = is_char d (code c) || has_char d s

-- `s.rpartition(d)` without the separator: what is before and after the last one, and all of `s`
-- after it where there is none
unfoldable pub rpartition : ℕ → String → String × String
rpartition d String.[] = ("", "")
rpartition d (String.◌∷◌ c s) =
    let (before, after) = rpartition d s in
    if has_char d s
    then (String.◌∷◌ c before, after)
    else if is_char d (code c)
    then ("", s)
    else ("", String.◌∷◌ c s)

-- `s <= t`, by code points
unfoldable pub text_le : String → String → Bool
text_le String.[] t = true
text_le (String.◌∷◌ c s) String.[] = false
text_le (String.◌∷◌ c s) (String.◌∷◌ d t) = elim (compare (code c) (code d)) [
  | Ordering.lt ↦ true
  | Ordering.eq ↦ text_le s t
  | Ordering.gt ↦ false
]

digit : ℕ → Char
digit zero = "0"
digit (suc zero) = "1"
digit (suc (suc zero)) = "2"
digit (suc (suc (suc zero))) = "3"
digit (suc (suc (suc (suc zero)))) = "4"
digit (suc (suc (suc (suc (suc zero))))) = "5"
digit (suc (suc (suc (suc (suc (suc zero)))))) = "6"
digit (suc (suc (suc (suc (suc (suc (suc zero))))))) = "7"
digit (suc (suc (suc (suc (suc (suc (suc (suc zero)))))))) = "8"
digit _ = "9"

show_from : ℕ → ℕ → String → String
show_from zero n rest = rest
show_from (suc fuel) n rest =
    let here = String.◌∷◌ (digit (n % 10)) rest in
    let more = show_from fuel (n / 10) here in if leb n 9 then here else more

-- `str(n)`: a number has fewer digits than `n + 1`, so the fuel is enough.
unfoldable pub show : ℕ → String
unfolding show_from digit
show n = show_from (suc n) n ""

show_120 : show 120 ≡ "120"
unfolding show
show_120 = refl

rpartition_last : rpartition b':' "a:b:07" ≡ ("a:b", "07")
unfolding rpartition
rpartition_last = refl

rpartition_none : rpartition b':' "abc" ≡ ("", "abc")
unfolding rpartition
rpartition_none = refl

digits_value_007 : digits_value 0 "0070" ≡ 70
unfolding digits_value
digits_value_007 = refl

pub len-join : (s t : String) → len (join s t) ≡ len s + len t
len-join String.[] t = omega arith
len-join (String.◌∷◌ c s) t = omega (arith, len-join s t)
