-- ===== src/Prelude/Members.antt =====
-- The members that Python's list scans choose.
use mathlib.Core.Path.{◌≡◌, sym, subst}
use mathlib.Core.Bool.{Bool, true, false}
use mathlib.Core.Option.{some}
use mathlib.Core.List.{List, [], ◌∷◌, Memᴰ}
use mathlib.Core.List.Memᴰ
use mathlib.Core.Logic.{inl, inr}
use native.Mathlib.Omega.{arith}
use proxy_loop.Prelude.Lists.{find, keep, any}
use proxy_loop.Prelude.Tests.{Bool-cases}

module _ {ℓ} {A : Type ℓ} (p : A → Bool) where
  pub find-Memᴰ : (xs : List A) (x : A) → find p xs ≡ some x → Memᴰ x xs × (p x ≡ true)
  find-Memᴰ [] x h = absurd (ground arith)
  find-Memᴰ (y ∷ ys) x h = elim (Bool-cases (p y)) [
    | inl holds ↦
        let same : x ≡ y = ground arith in
        (Memᴰ.head same, subst (λ (z : A). p z ≡ true) (sym same) holds)
    | inr fails ↦ let (m, sat) = find-Memᴰ ys x (ground arith) in (Memᴰ.tail m, sat)
  ]

  pub keep-Memᴰ : (xs : List A) (x : A) → Memᴰ x (keep p xs) → Memᴰ x xs × (p x ≡ true)
  keep-Memᴰ [] x m = absurd (Memᴰ.not-nil m)
  keep-Memᴰ (y ∷ ys) x m = elim (Bool-cases (p y)) [
    | inl holds ↦ first (keep-Memᴰ ys x) holds (subst (Memᴰ x) (ground arith) m)
    | inr fails ↦
        let (n, sat) = keep-Memᴰ ys x (subst (Memᴰ x) (ground arith) m) in (Memᴰ.tail n, sat)
  ]
    where
      first :
          (Memᴰ x (keep p ys) → Memᴰ x ys × (p x ≡ true))
          → p y ≡ true
          → Memᴰ x (y ∷ keep p ys)
          → Memᴰ x (y ∷ ys) × (p x ≡ true)
      first rest holds (Memᴰ.head same) =
          (Memᴰ.head same, subst (λ (z : A). p z ≡ true) (sym same) holds)
      first rest holds (Memᴰ.tail n) = let (k, sat) = rest n in (Memᴰ.tail k, sat)

  pub any-Memᴰ : (xs : List A) (x : A) → any p xs ≡ false → Memᴰ x xs → p x ≡ false
  any-Memᴰ [] x h m = absurd (Memᴰ.not-nil m)
  any-Memᴰ (y ∷ ys) x h (Memᴰ.head same) = subst (λ (z : A). p z ≡ false) (sym same) (ground arith)
  any-Memᴰ (y ∷ ys) x h (Memᴰ.tail m) = any-Memᴰ ys x (ground arith) m

  pub Memᴰ-keep : (xs : List A) (x : A) → Memᴰ x xs → p x ≡ true → Memᴰ x (keep p xs)
  Memᴰ-keep [] x m h = m
  Memᴰ-keep (y ∷ ys) x m h = elim (Memᴰ.cases_cons m) [
    | inl same ↦
        let holds : p y ≡ true = subst (λ (z : A). p z ≡ true) same h in
        let first : y ∷ keep p ys ≡ keep p (y ∷ ys) = ground arith in
        subst (Memᴰ x) first (Memᴰ.head same)
    | inr n ↦ elim (Bool-cases (p y)) [
      | inl holds ↦
          let first : y ∷ keep p ys ≡ keep p (y ∷ ys) = ground arith in
          subst (Memᴰ x) first (Memᴰ.tail (Memᴰ-keep ys x n h))
      | inr fails ↦
          let rest : keep p ys ≡ keep p (y ∷ ys) = ground arith in
          subst (Memᴰ x) rest (Memᴰ-keep ys x n h)
    ]
  ]
