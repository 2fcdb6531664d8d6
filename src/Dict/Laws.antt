-- ===== src/Dict/Laws.antt =====
-- The laws of dictionaries, and how many values satisfy a test.
use proxy_loop.Prelude.{
  ℕ, ◌+◌, ◌≤◌, ◌≡◌, Bool, true, false, Option, none, some, List, [], ◌∷◌, Eq, ◌==◌, if◌then◌else◌,
  arith, count, any, length, Memᴰ, Bool-cases, inl, inr,
}
use mathlib.Core.List.Memᴰ
use proxy_loop.Dict.{Dict, get, put, without, values}

-- one if the value is there and satisfies the test
abbrev pub weight {ℓ} : {V : Type ℓ} → (V → Bool) → Option V → ℕ
weight p none = 0
weight p (some v) = elim (p v) [ true ↦ 1 | false ↦ 0 ]

module _ {ℓ} {K V : Type ℓ} ⦃e : Eq K⦄ where
  pub get-put :
      (d : Dict K V) (k j : K) (v : V) → get (put d k v) j ≡ (if k == j then some v else get d j)
  unfolding get put
  get-put [] k j v = ground arith
  get-put ((i, w) ∷ d) k j v = ground (arith, get-put d k j v)

  pub get-without :
      (d : Dict K V) (k j : K) → get (without d k) j ≡ (if k == j then none else get d j)
  unfolding get without
  get-without [] k j = ground arith
  get-without ((i, w) ∷ d) k j = ground (arith, get-without d k j)

  pub count-put :
      (p : V → Bool) (d : Dict K V) (k : K) (v : V)
      → count p (values (put d k v)) + weight p (get d k) ≡ count p (values d) + weight p (some v)
  unfolding get put
  count-put p [] k v = ground arith
  count-put p ((i, w) ∷ d) k v = ground (arith, count-put p d k v)

  pub count-without :
      (p : V → Bool) (d : Dict K V) (k : K) → count p (values (without d k)) ≤ count p (values d)
  unfolding without
  count-without p [] k = ground arith
  count-without p ((i, w) ∷ d) k = ground (arith, count-without p d k)

  pub length-put : (d : Dict K V) (k : K) (v : V) → length (put d k v) ≤ length d + 1
  unfolding put
  length-put [] k v = ground arith
  length-put ((i, w) ∷ d) k v = ground (arith, length-put d k v)

  pub weight-le-count :
      (p : V → Bool) (d : Dict K V) (k : K) → weight p (get d k) ≤ count p (values d)
  unfolding get
  weight-le-count p [] k = ground arith
  weight-le-count p ((i, w) ∷ d) k = ground (arith, weight-le-count p d k)

-- `any` over the values is false exactly when none is counted
pub any-count {ℓ} : {V : Type ℓ} (p : V → Bool) (xs : List V) → any p xs ≡ false → count p xs ≡ 0
any-count p [] h = ground arith
any-count p (x ∷ xs) h = ground (arith, any-count p xs)

pub count-any {ℓ} : {V : Type ℓ} (p : V → Bool) (xs : List V) → count p xs ≡ 0 → any p xs ≡ false
count-any p [] h = ground arith
count-any p (x ∷ xs) h = ground (arith, count-any p xs)

-- what is looked up is a value
pub get-Memᴰ {ℓ} :
    {K V : Type ℓ} ⦃e : Eq K⦄ (d : Dict K V) (k : K) (v : V) → get d k ≡ some v → Memᴰ v (values d)
unfolding get
get-Memᴰ [] k v h = absurd (ground arith)
get-Memᴰ ((j, w) ∷ d) k v h = elim (Bool-cases (j == k)) [
  | inl here ↦ Memᴰ.head (ground arith)
  | inr past ↦ Memᴰ.tail (get-Memᴰ d k v (ground arith))
]

pub values-Memᴰ {ℓ} :
    {K V : Type ℓ} (d : Dict K V) (k : K) (v : V) → Memᴰ (k, v) d → Memᴰ v (values d)
values-Memᴰ ((j, w) ∷ d) k v (Memᴰ.head same) = Memᴰ.head (ground arith)
values-Memᴰ ((j, w) ∷ d) k v (Memᴰ.tail m) = Memᴰ.tail (values-Memᴰ d k v m)
values-Memᴰ [] k v m = absurd (Memᴰ.not-nil m)
