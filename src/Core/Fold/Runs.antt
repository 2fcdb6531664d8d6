-- ===== src/Core/Fold/Runs.antt =====
-- Folding a log (core/fold.py): a prefix first, and induction over the accepted events.
use proxy_loop.Prelude.{
  ◌≡◌, refl, ok, err, List, [], ◌∷◌, ◌++◌, ◌>>=◌, >>=-eq-ok, ap, ◌∙◌, sym, subst, fun_ext,
}
use proxy_loop.Contract.State.{Blackboard}
use proxy_loop.Contract.Events.Envelope.{Event}
use proxy_loop.Core.Reducers.Errors.{Fold}
use proxy_loop.Core.Fold.{apply, fold}

bind_assoc :
    {A B C : Type 0} (m : Fold A) (f : A → Fold B) (g : B → Fold C)
    → ((m >>= f) >>= g) ≡ (m >>= λ a. f a >>= g)
bind_assoc (ok a) f g = refl
bind_assoc (err e) f g = refl

-- Folding a log is folding its prefix and then the rest from where the prefix ended, errors included.
pub fold-append :
    (bb : Blackboard) (xs ys : List Event) → fold bb (xs ++ ys) ≡ (fold bb xs >>= λ b. fold b ys)
unfolding fold
fold-append bb [] ys = refl
fold-append bb (e ∷ xs) ys =
    ap (λ (f : Blackboard → Fold Blackboard). apply bb e >>= f) (fun_ext λ b. fold-append b xs ys)
    ∙ sym (bind_assoc (apply bb e) (λ b. fold b xs) (λ b. fold b ys))

pub ok-injective : {a b : Blackboard} → ◌≡◌ {A = Fold Blackboard} (ok a) (ok b) → a ≡ b
ok-injective e = cc

-- What every accepted event keeps, every accepted log keeps.
pub fold_induction :
    (P : Blackboard → Type 0)
    → ((bb : Blackboard) (e : Event) (b : Blackboard) → apply bb e ≡ ok b → P bb → P b)
    → (bb : Blackboard) (es : List Event) (b : Blackboard) → fold bb es ≡ ok b
    → P bb
    → P b
unfolding fold
fold_induction P step bb [] b h p = subst P (ok-injective h) p
fold_induction P step bb (e ∷ es) b h p =
    let (mid, first, rest) = >>=-eq-ok (apply bb e) (λ c. fold c es) h in
    fold_induction P step mid es b rest (step bb e mid first p)
