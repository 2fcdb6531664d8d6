-- ===== src/Dict/Unique.antt =====
-- Dictionaries in which no key is listed twice, as every dictionary of the program is.
use proxy_loop.Prelude.{◌+◌, ◌≡◌, Bool, none, [], ◌∷◌, Eq, arith, count}
use proxy_loop.Dict.{Dict, get, put, without, values}
use proxy_loop.Dict.Laws.{weight, get-put, get-without}

module _ {ℓ} {K V : Type ℓ} ⦃e : Eq K⦄ where
  abbrev pub IsUnique : Dict K V → Type ℓ
  IsUnique [] = Unit
  IsUnique ((k, v) ∷ d) = (get d k ≡ none) × IsUnique d

  pub put-IsUnique : (d : Dict K V) (k : K) (v : V) → IsUnique d → IsUnique (put d k v)
  unfolding get put
  put-IsUnique [] k v u = ground arith
  put-IsUnique ((i, w) ∷ d) k v u = ground (arith, put-IsUnique d k v u.1, get-put d k i v)

  pub without-IsUnique : (d : Dict K V) (k : K) → IsUnique d → IsUnique (without d k)
  unfolding get without
  without-IsUnique [] k u = ground arith
  without-IsUnique ((i, w) ∷ d) k u = ground (arith, without-IsUnique d k u.1, get-without d k i)

  without_absent :
      (p : V → Bool) (d : Dict K V) (k : K)
      → get d k ≡ none
      → count p (values (without d k)) ≡ count p (values d)
  unfolding get without
  without_absent p [] k h = ground arith
  without_absent p ((i, w) ∷ d) k h = ground (arith, without_absent p d k)

  -- Removing a key takes its value, and no other, out of the count.
  pub count-without_unique :
      (p : V → Bool) (d : Dict K V) (k : K)
      → IsUnique d
      → count p (values (without d k)) + weight p (get d k) ≡ count p (values d)
  unfolding get without
  count-without_unique p [] k u = ground arith
  count-without_unique p ((i, w) ∷ d) k u =
      ground (arith, count-without_unique p d k u.1, without_absent p d k)
