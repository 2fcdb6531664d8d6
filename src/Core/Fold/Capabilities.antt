-- ===== src/Core/Fold/Capabilities.antt =====
-- The capabilities of a blackboard that a log can reach (core/fold.py): each is filed under its own
-- id, at most one accept is in flight, and of the accepts of the same terms at most one is released.
use proxy_loop.Prelude.{
  ◌≡◌, refl, subst, sym, ℕ, ◌+◌, ◌≤◌, String, true, false, none, some, ok, arith, count, string_eq,
  >>=-eq-ok, List,
}
use proxy_loop.Dict.{Dict, get, values}
use proxy_loop.Dict.Laws.{weight, get-put, get-without, count-put, any-count}
use proxy_loop.Dict.Unique.{IsUnique, put-IsUnique, without-IsUnique, count-without_unique}
use proxy_loop.Contract.Grants.{Capability, Intent, Authorization}
use proxy_loop.Contract.Offers.{OfferPublic}
use proxy_loop.Contract.State.{Blackboard, new_board}
use proxy_loop.Contract.Events.Payload.{Payload, action_authorized, speak_released, speak_revoked}
use proxy_loop.Contract.Events.Envelope.{Event, id_of}
use proxy_loop.Guard.Capability.{is_in_flight, is_released_of, released_accept, accept_in_flight}
use proxy_loop.Core.Reducers.Release.{released, revoked}
use proxy_loop.Core.Fold.{reduce, apply, fold, stamp}
use proxy_loop.Core.Fold.Runs.{fold_induction}
use proxy_loop.Core.Fold.Frames.{capabilities-reduce}
use proxy_loop.Core.Fold.Effects.{
  Authorized, authorized_effect, Released, released_effect, Revoked, revoked_effect,
}

abbrev pub Caps : Type 0
Caps = Dict String Capability

abbrev pub in_flight_count : Caps → ℕ
in_flight_count caps = count is_in_flight (values caps)

abbrev pub released_of : String → Caps → ℕ
released_of th caps = count (is_released_of th) (values caps)

pub record IsSound (caps : Caps) : Type 0 where
  pub unique : IsUnique caps
  pub own_key : (k : String) (c : Capability) → get caps k ≡ some c → c.cap_id ≡ k
  pub one_in_flight : in_flight_count caps ≤ 1
  pub one_released : (th : String) → released_of th caps ≤ 1

none_in_flight :
    (bb : Blackboard) → accept_in_flight bb ≡ false → in_flight_count bb.capabilities ≡ 0
unfolding accept_in_flight
none_in_flight bb h = any-count is_in_flight (values bb.capabilities) h

none_released :
    (bb : Blackboard) (th : String)
    → released_accept bb th ≡ false
    → released_of th bb.capabilities ≡ 0
unfolding released_accept
none_released bb th h = any-count (is_released_of th) (values bb.capabilities) h

module _ (bb : Blackboard) (t : ℕ) (i : Intent) (new : Capability) {b : Blackboard}
    (e : Authorized bb t i new b) (s : IsSound bb.capabilities) where
  authorized-one_in_flight : in_flight_count b.capabilities ≤ 1
  authorized-one_in_flight = rw e.caps (
      ground (
        arith,
        count-put is_in_flight bb.capabilities new.cap_id new,
        none_in_flight bb,
        s.one_in_flight,
      ))

  pub authorized-released_of :
      (th : String) → released_of th b.capabilities ≡ released_of th bb.capabilities
  authorized-released_of th =
      rw e.caps (ground (arith, count-put (is_released_of th) bb.capabilities new.cap_id new))

  pub authorized-IsSound : IsSound b.capabilities
  authorized-IsSound = record {
    unique = rw e.caps (put-IsUnique bb.capabilities new.cap_id new s.unique);
    own_key =
        λ k c. rw e.caps (ground (arith, get-put bb.capabilities new.cap_id k new, s.own_key k c));
    one_in_flight = authorized-one_in_flight;
    one_released = λ th. rw authorized-released_of (s.one_released th);
  }

-- one if a release of these terms' accept
abbrev pub is_release : String → Capability → ℕ
is_release th c = weight (is_released_of th) (some (record c { consumed = true }))

module _ (bb : Blackboard) (t : ℕ) (id : String) (c : Capability) (a : Authorization)
    (o : OfferPublic) {b : Blackboard} (e : Released bb t id c a o b)
    (s : IsSound bb.capabilities) where
  own : get bb.capabilities c.cap_id ≡ some c
  own = cc (s.own_key id c e.held, e.held)

  released-in_flight : in_flight_count b.capabilities ≤ 1
  released-in_flight = rw e.caps (
      ground (
        arith,
        count-put is_in_flight bb.capabilities c.cap_id (record c { consumed = true }),
        s.one_in_flight,
        own,
      ))

  -- A release adds one to the released accepts of its terms, and nothing to any others.
  pub released-released_of :
      (th : String)
      → released_of th b.capabilities ≡ released_of th bb.capabilities + is_release th c
  released-released_of th = rw e.caps (
      ground (
        arith,
        count-put (is_released_of th) bb.capabilities c.cap_id (record c { consumed = true }),
        own,
      ))

  pub released-IsSound : IsSound b.capabilities
  released-IsSound = record {
    unique =
        rw e.caps (put-IsUnique bb.capabilities c.cap_id (record c { consumed = true }) s.unique);
    own_key = λ k d. rw e.caps (
        ground (
          arith,
          get-put bb.capabilities c.cap_id k (record c { consumed = true }),
          s.own_key k d,
        ));
    one_in_flight = released-in_flight;
    one_released = λ th.
        ground (arith, released-released_of th, s.one_released th, none_released bb c.terms_hash);
  }

module _ (bb : Blackboard) (id : String) (c : Capability) {b : Blackboard} (e : Revoked bb id c b)
    (s : IsSound bb.capabilities) where
  live : get bb.capabilities c.cap_id ≡ some c
  live = cc (s.own_key id c e.held, e.held)

  pub revoked-released_of :
      (th : String) → released_of th b.capabilities ≡ released_of th bb.capabilities
  revoked-released_of th = rw e.caps (
      ground
        (arith, count-without_unique (is_released_of th) bb.capabilities c.cap_id s.unique, live))

  pub revoked-IsSound : IsSound b.capabilities
  revoked-IsSound = record {
    unique = rw e.caps (without-IsUnique bb.capabilities c.cap_id s.unique);
    own_key =
        λ k d. rw e.caps (ground (arith, get-without bb.capabilities c.cap_id k, s.own_key k d));
    one_in_flight = rw e.caps (
        ground (
          arith,
          count-without_unique is_in_flight bb.capabilities c.cap_id s.unique,
          s.one_in_flight,
        ));
    one_released = λ th. rw revoked-released_of (s.one_released th);
  }

kept : (x y : Caps) → y ≡ x → IsSound x → IsSound y
kept x y e s = subst (λ (z : Caps). IsSound z) (sym e) s

-- Every accepted event keeps the capabilities sound.
pub reduce-IsSound :
    (bb : Blackboard) (seq t : ℕ) (id : String) (p : Payload) (b : Blackboard)
    → reduce bb seq t id p ≡ ok b
    → IsSound bb.capabilities
    → IsSound b.capabilities
unfolding reduce
reduce-IsSound bb seq t id (action_authorized i new) b h s =
    authorized-IsSound bb t i new (authorized_effect bb t i new h) s
reduce-IsSound bb seq t id (speak_released (some key)) b h s =
    let (c, a, o, e) = released_effect bb t key h in released-IsSound bb t key c a o e s
reduce-IsSound bb seq t id (speak_revoked (some key)) b h s =
    let (c, e) = revoked_effect bb key h in revoked-IsSound bb key c e s
reduce-IsSound bb seq t id (speak_released none) b h s =
    kept bb.capabilities b.capabilities (unfold released in ground arith) s
reduce-IsSound bb seq t id (speak_revoked none) b h s =
    kept bb.capabilities b.capabilities (unfold revoked in ground arith) s
reduce-IsSound bb seq t id p b h s =
    kept bb.capabilities b.capabilities (capabilities-reduce bb seq t id p refl h) s

pub new-IsSound : IsSound new_board.capabilities
unfolding get
new-IsSound = record {
  unique = tt;
  own_key = λ k c h. cc;
  one_in_flight = omega arith;
  one_released = λ th. omega arith;
}

pub apply-IsSound :
    (bb : Blackboard) (e : Event) (b : Blackboard)
    → apply bb e ≡ ok b
    → IsSound bb.capabilities
    → IsSound b.capabilities
unfolding apply
apply-IsSound bb e b h s =
    let (mid, reduced, stamped) =
      >>=-eq-ok (reduce bb e.seq e.t_ms (id_of e) e.payload) (stamp e) h in
    kept mid.capabilities b.capabilities (ground arith)
      (reduce-IsSound bb e.seq e.t_ms (id_of e) e.payload mid reduced s)

-- The capabilities of every blackboard that a log folds to are sound.
pub fold-IsSound :
    (es : List Event) (b : Blackboard) → fold new_board es ≡ ok b → IsSound b.capabilities
fold-IsSound es b h =
    fold_induction (λ bb. IsSound bb.capabilities) apply-IsSound new_board es b h new-IsSound
