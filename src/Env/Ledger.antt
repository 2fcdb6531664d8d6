-- ===== src/Env/Ledger.antt =====
-- src/proxyloop/env/ledger.py: what the counterparty's system writes on a confirmed accept, over any
-- type of terms with a term in months.
use proxy_loop.Prelude.{
  ◌⊎◌, inl, inr, sym, Bool-cases, ==_sound, ◌∙◌, [], String, Option, some, none, ◌≡◌, refl, arith,
  if◌then◌else◌, ◌==◌, string_eq,
}
use proxy_loop.Prelude.Int.{ℤ, ◌+ℤ◌, pos}
use proxy_loop.Dict.{Dict, get, put}
use proxy_loop.Dict.Laws.{get-put}

pub data LedgerMode : Type 0 where
  honest misquote absent : LedgerMode

abbrev pub misquote_extra_term_months : ℤ
misquote_extra_term_months = pos 12

-- `LedgerTerms`, with `replace` of its field
pub record LedgerTerms (T : Type 0) : Type 0 where
  pub term_months : T → ℤ
  pub with_term_months : T → ℤ → T

pub record Ledger (T : Type 0) : Type 0 where
  pub mode : LedgerMode
  pub entries : Dict String T

-- `Ledger.__init__`
abbrev pub new_ledger : {T : Type 0} → LedgerMode → Ledger T
new_ledger m = record { mode = m; entries = [] }

abbrev pub lookup : {T : Type 0} → Ledger T → String → Option T
lookup l ref = get l.entries ref

-- what the ledger says of a reference after a write
abbrev pub or_else : {T : Type 0} → Option T → Option T → Option T
or_else none old = old
or_else (some t) old = some t

module _ {T : Type 0} ⦃terms : LedgerTerms T⦄ where
  -- the terms that a mode writes for the heard ones
  abbrev pub bound_by : LedgerMode → T → Option T
  bound_by honest t = some t
  bound_by misquote t =
      some (terms.with_term_months t (terms.term_months t +ℤ misquote_extra_term_months))
  bound_by absent t = none

  unfoldable pub write : Ledger T → String → T → Ledger T
  write l ref heard = elim (bound_by l.mode heard) [
    | none ↦ l
    | some t ↦ record l { entries = put l.entries ref t }
  ]

  pub lookup-write :
      (l : Ledger T) (ref key : String) (heard : T)
      → lookup (write l ref heard) key
        ≡ (if ref == key then or_else (bound_by l.mode heard) (lookup l key) else lookup l key)
  unfolding write
  lookup-write l ref key heard = modes l.mode refl
    where
      modes :
          (m : LedgerMode)
          → l.mode ≡ m
          → lookup (write l ref heard) key
            ≡ (if ref == key then or_else (bound_by l.mode heard) (lookup l key) else lookup l key)
      modes honest e = ground (arith, get-put l.entries ref key heard)
      modes misquote e = ground (
        arith,
        get-put l.entries ref key
            (terms.with_term_months heard (terms.term_months heard +ℤ misquote_extra_term_months)),
      )
      modes absent e = ground arith

  -- what a reference looks up to after it was confirmed with the heard terms
  abbrev pub Confirms : LedgerMode → T → Option T → Option T → Type 0
  Confirms honest heard before after = after ≡ some heard
  Confirms misquote heard before after =
      (t : T) × (after ≡ some t)
      × (terms.term_months t ≡ terms.term_months heard +ℤ pos 12)
      × (terms.with_term_months t (terms.term_months heard) ≡ heard)
  Confirms absent heard before after = after ≡ before

  -- Where `replace` of the months sets them and nothing else, a confirmation leaves every other
  -- reference as it was; an honest ledger then has exactly the heard terms under its reference, a
  -- misquoting one terms of twelve months more that are otherwise the heard ones, and an absent one
  -- what it had before.
  pub write-Confirms :
      (set_months : (t : T) (m : ℤ) → terms.term_months (terms.with_term_months t m) ≡ m)
      (reset_months : (t : T) (m : ℤ)
        → terms.with_term_months (terms.with_term_months t m) (terms.term_months t) ≡ t)
      (l : Ledger T) (ref : String) (heard : T)
      → Confirms l.mode heard (lookup l ref) (lookup (write l ref heard) ref)
        × ((key : String) → (key ≡ ref) ⊎ (lookup (write l ref heard) key ≡ lookup l key))
  write-Confirms set_months reset_months l ref heard = (modes l.mode refl, others)
    where
      here : lookup (write l ref heard) ref ≡ or_else (bound_by l.mode heard) (lookup l ref)
      here = ground (arith, lookup-write l ref ref heard)

      others : (key : String) → (key ≡ ref) ⊎ (lookup (write l ref heard) key ≡ lookup l key)
      others key = elim (Bool-cases (ref == key)) [
        | inl same ↦ inl (sym (==_sound ref key same))
        | inr other ↦ inr (lookup-write l ref key heard ∙ rw other refl)
      ]

      modes :
          (m : LedgerMode)
          → l.mode ≡ m
          → Confirms m heard (lookup l ref) (lookup (write l ref heard) ref)
      modes honest e = here ∙ rw e refl
      modes misquote e = (
        terms.with_term_months heard (terms.term_months heard +ℤ pos 12),
        here ∙ rw e refl,
        set_months heard (terms.term_months heard +ℤ pos 12),
        reset_months heard (terms.term_months heard +ℤ pos 12),
      )
      modes absent e = here ∙ rw e refl
