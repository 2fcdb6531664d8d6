-- ===== src/Env/World.antt =====
-- How heard text is compared (src/proxyloop/env/world.py). The regular expressions read ASCII digits;
-- the Unicode tables behind `casefold` and `isalnum`, and SHA-256, are parameters.
use proxy_loop.Prelude.{ℕ, String, Bool, false, ◌&&◌, List, if◌then◌else◌}
use Prim.Native.Char.{code}
use proxy_loop.Prelude.Texts.{is_digit, is_char, keep_chars}
use proxy_loop.Prelude.Decimals.{Decimal, find_numbers}

pub record Speech : Type 0 where
  -- `str.casefold` and, of a character's code point, `str.isalnum`
  pub casefold : String → String
  pub is_alnum : ℕ → Bool
  -- the first eight hexadecimal digits of a SHA-256, as a number
  pub digest : String → ℕ

-- three digits stand at the front
unfoldable pub three_digits : String → Bool
three_digits (String.◌∷◌ a (String.◌∷◌ b (String.◌∷◌ c _))) =
    is_digit (code a) && is_digit (code b) && is_digit (code c)
three_digits _ = false

-- `re.sub(r"(?<=\d),(?=\d{3})", "", text)`; the flag is whether a digit stands before
unfoldable pub without_commas : Bool → String → String
without_commas before String.[] = ""
without_commas before (String.◌∷◌ c s) =
    let rest = without_commas (is_digit (code c)) s in
    if is_char (code c) b',' && before && three_digits s then rest else String.◌∷◌ c rest

-- `numbers`
unfoldable pub numbers : String → List Decimal
numbers text = find_numbers (without_commas false text)

-- `norm`
abbrev pub norm : Speech → String → String
norm sp value = keep_chars sp.is_alnum (sp.casefold value)
