-- ===== src/Env/Tasks.antt =====
-- The offers and the patience of a task's rep (src/proxyloop/env/tasks/schema.py). Times are whole
-- milliseconds: `ttl_s` is `int(1000 * ttl_s)`, and the limits are rounded up, since a clock of whole
-- milliseconds reaches a limit when it reaches its ceiling.
use proxy_loop.Prelude.{
  ℕ, String, Bool, true, false, not, ◌&&◌, ◌||◌, Option, none, some, List, [], ◌∷◌, all, any, leb,
  length, ◌==◌, string_eq,
}
use Prim.Native.Char.{code}
use proxy_loop.Prelude.Texts.{has_prefix, is_digit, is_char, every, len}
use proxy_loop.Dict.{Dict, get, put, has, keys}
use proxy_loop.Contract.Offers.{is_offer_ref}
use proxy_loop.Env.Ledger.{LedgerMode}

-- `[0-9]+(?:\.[0-9]{2})?`
unfoldable pub is_cents : String → Bool
is_cents (String.◌∷◌ p (String.◌∷◌ a (String.◌∷◌ b String.[]))) =
    is_char (code p) b'.' && is_digit (code a) && is_digit (code b)
is_cents _ = false

money_tail : String → Bool
money_tail String.[] = true
money_tail (String.◌∷◌ c s) = (is_digit (code c) && money_tail s) || is_cents (String.◌∷◌ c s)

unfoldable pub is_money : String → Bool
unfolding money_tail is_cents
is_money String.[] = false
is_money (String.◌∷◌ c s) = is_digit (code c) && money_tail s

-- `money_term`
unfoldable pub money_term : String → Bool
money_term field = field == "monthly_price" || has_prefix "fee:" field || has_prefix "credit:" field

pub record OfferSpec : Type 0 where
  pub offer_ref : String
  pub terms : Dict String String
  pub hidden : Dict String String
  pub ttl_ms : Option ℕ

-- `self.terms | self.hidden`
unfoldable pub merged : Dict String String → Dict String String → Dict String String
merged d [] = d
merged d ((k, v) ∷ rest) = merged (put d k v) rest

abbrev pub all_terms : OfferSpec → Dict String String
all_terms o = merged o.terms o.hidden

-- `term_months.isdigit()` on the term, "" where it is missing
abbrev is_months : Option String → Bool
is_months none = false
is_months (some s) = leb 1 (len s) && every is_digit s

abbrev money_fits : Dict String String → Bool
money_fits [] = true
money_fits ((k, v) ∷ d) = (not (money_term k) || is_money v) && money_fits d

unfoldable pub valid_offer_spec : OfferSpec → Bool
valid_offer_spec o =
    is_offer_ref o.offer_ref
    && leb 1 (length o.terms)
    && all (λ k. not (has o.hidden k)) (keys o.terms)
    && is_months (get (all_terms o) "term_months")
    && money_fits (all_terms o)

pub record Patience : Type 0 where
  pub silence_ms : ℕ
  pub hold_ms : ℕ
  pub strikes : ℕ

pub record CounterpartySpec : Type 0 where
  pub identity : List String
  pub ladder : List OfferSpec
  pub patience : Patience
  pub ledger : LedgerMode

abbrev distinct_refs : List OfferSpec → Bool
distinct_refs [] = true
distinct_refs (o ∷ os) = not (any (λ p. p.offer_ref == o.offer_ref) os) && distinct_refs os

unfoldable pub valid_spec : CounterpartySpec → Bool
valid_spec s =
    leb 1 (length s.identity)
    && leb 1 (length s.ladder)
    && all valid_offer_spec s.ladder
    && leb 1 s.patience.silence_ms
    && leb 20000 s.patience.hold_ms
    && leb s.patience.hold_ms 60000
    && leb 1 s.patience.strikes
    && distinct_refs s.ladder
