-- ===== src/Prelude/Results.antt =====
-- A computation that returns a value or raises.
use mathlib.Core.Path.{◌≡◌, refl}

pub data Result {ℓ} (E A : Type ℓ) : Type ℓ where
  ok : A → Result E A
  err : E → Result E A

-- a raise skips what follows it
infixl 10 ◌>>=◌
abbrev pub ◌>>=◌ {ℓ} :
    {Raised Before After : Type ℓ}
    → Result Raised Before
    → (Before → Result Raised After)
    → Result Raised After
err raised >>= later = err raised
ok before >>= later = later before

module _ {ℓ} {Raised Before After : Type ℓ} where
  -- Inversion of a successful bind, for proofs where the parts stay shut.
  pub >>=-eq-ok :
      (first : Result Raised Before) (later : Before → Result Raised After) {after : After}
      → (first >>= later) ≡ ok after
      → (before : Before) × (first ≡ ok before) × (later before ≡ ok after)
  >>=-eq-ok (err raised) later h = cc
  >>=-eq-ok (ok before) later h = (before, refl, h)
