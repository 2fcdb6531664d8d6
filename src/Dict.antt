-- ===== src/Dict.antt =====
-- Python's `dict`: entries in the order of their first insertion. A write to a key that is there
-- keeps its place.
pub mod Laws
pub mod Unique
use proxy_loop.Prelude.{
  Bool, true, false, Option, none, some, List, [], ◌∷◌, Eq, ◌==◌, if◌then◌else◌, is_none, not, map,
}

abbrev pub Dict {ℓ} : Type ℓ → Type ℓ → Type ℓ
Dict K V = List (K × V)

module _ {ℓ} {K V : Type ℓ} ⦃e : Eq K⦄ where
  -- `d.get(k)`
  unfoldable pub get : Dict K V → K → Option V
  get [] k = none
  get ((j, v) ∷ d) k = if j == k then some v else get d k

  -- `{**d, k: v}`
  unfoldable pub put : Dict K V → K → V → Dict K V
  put [] k v = (k, v) ∷ []
  put ((j, w) ∷ d) k v = let rest = put d k v in if j == k then (k, v) ∷ d else (j, w) ∷ rest

  -- `{j: v for j, v in d.items() if j != k}`
  unfoldable pub without : Dict K V → K → Dict K V
  without [] k = []
  without ((j, v) ∷ d) k = let rest = without d k in if j == k then rest else (j, v) ∷ rest

  -- `k in d`
  abbrev pub has : Dict K V → K → Bool
  has d k = not (is_none (get d k))

module _ {ℓ} {K V : Type ℓ} where
  abbrev pub values : Dict K V → List V
  values [] = []
  values ((k, v) ∷ d) = v ∷ values d

  abbrev pub keys : Dict K V → List K
  keys [] = []
  keys ((k, v) ∷ d) = k ∷ keys d
