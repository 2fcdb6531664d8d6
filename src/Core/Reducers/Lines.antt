-- ===== src/Core/Reducers/Lines.antt =====
-- The transcript, the pending messages, the hold, the strikes and the summaries (core/fold.py).
use proxy_loop.Prelude.{
  ℕ, ◌+◌, String, not, Option, none, some, List, [], ◌∷◌, ◌++◌, ◌==◌, ok, err, leb, keep, string_eq,
  nat_eq, if◌then◌else◌,
}
use proxy_loop.Prelude.Texts.{len}
use proxy_loop.Contract.Base.{Lane, user, cp, HoldReason, max_public_text, max_private_summary}
use proxy_loop.Contract.Messages.{FastToSlow, SlowToFast, Guide, valid_f2s, valid_s2f}
use proxy_loop.Contract.State.{
  Blackboard, Line, Speaker, partner, agent, PublicState, PrivateState, on_lane, set_lane,
}
use proxy_loop.Contract.Events.Payload.{Scope, public_scope, private_scope, other_scope}
use proxy_loop.Core.Reducers.Errors.{Fold, invalid_value, bad_scope, raise_if}

-- `_with(bb, public=_with(bb.public, …))`, and so for the private state
abbrev pub with_public : Blackboard → PublicState → Blackboard
with_public bb p = record bb { public = p }

abbrev pub with_private : Blackboard → PrivateState → Blackboard
with_private bb p = record bb { private = p }

unfoldable pub append_line : Blackboard → Lane → Line → Blackboard
append_line bb lane line =
    let channel = on_lane bb.channels lane in
    record bb {
      channels = set_lane bb.channels lane (record channel { lines = channel.lines ++ line ∷ [] });
    }

-- `_user_msg`: the line's id is the event's
unfoldable pub user_msg : Blackboard → String → String → Fold Blackboard
user_msg bb id text =
    ok (append_line bb user (record { utt_id = id; speaker = partner; text = text }))

unfoldable pub utt_final : Blackboard → Lane → Speaker → String → String → Fold Blackboard
utt_final bb lane speaker utt text =
    ok (append_line bb lane (record { utt_id = utt; speaker = speaker; text = text }))

-- nothing is written where nothing was heard
unfoldable pub utt_delivered : Blackboard → Lane → String → String → Fold Blackboard
utt_delivered bb lane utt heard =
    if len heard == 0
    then ok bb
    else ok (append_line bb lane (record { utt_id = utt; speaker = agent; text = heard }))

unfoldable pub f2s : Blackboard → FastToSlow → Fold Blackboard
f2s bb m =
    raise_if (not (valid_f2s m)) invalid_value
      (ok (record bb { f2s_pending = bb.f2s_pending ++ m ∷ [] }))

-- the newest guide alone is kept: `(*guidance_cp, *[guide])[-1:]`
abbrev last_one : List Guide → List Guide
last_one [] = []
last_one (g ∷ []) = g ∷ []
last_one (_ ∷ h ∷ gs) = last_one (h ∷ gs)

abbrev guided : List Guide → Option Guide → List Guide
guided gs none = last_one gs
guided gs (some g) = last_one (gs ++ g ∷ [])

unfoldable pub s2f : Blackboard → SlowToFast → Fold Blackboard
s2f bb m = raise_if (not (valid_s2f m)) invalid_value (
    let public = bb.public in
    ok (record bb {
      s2f_pending = set_lane bb.s2f_pending m.lane (on_lane bb.s2f_pending m.lane ++ m ∷ []);
      public = record public { guidance_cp = guided public.guidance_cp m.guide };
    }))

abbrev others : String → List SlowToFast → List SlowToFast
others done = keep (λ m. not (m.msg_id == done))

unfoldable pub s2f_voiced : Blackboard → String → Fold Blackboard
s2f_voiced bb done = ok (record bb {
  s2f_pending = record {
    of_user = others done bb.s2f_pending.of_user;
    of_cp = others done bb.s2f_pending.of_cp;
  };
})

unfoldable pub hold : Blackboard → ℕ → Option HoldReason → Fold Blackboard
hold bb t none = let public = bb.public in ok (with_public bb (record public { cp_hold = none }))
hold bb t (some r) =
    let public = bb.public in
    ok (with_public bb (record public { cp_hold = some (record { reason = r; since_ms = t }) }))

unfoldable pub strike : Blackboard → Fold Blackboard
strike bb =
    let channel = on_lane bb.channels cp in
    ok (record bb {
      channels = set_lane bb.channels cp (record channel { strikes = channel.strikes + 1 });
    })

unfoldable pub summary : Blackboard → Scope → String → Fold Blackboard
summary bb public_scope text =
    raise_if (not (leb (len text) max_public_text)) invalid_value
      (let public = bb.public in ok (with_public bb (record public { summary = text })))
summary bb private_scope text =
    raise_if (not (leb (len text) max_private_summary)) invalid_value
      (let private = bb.private in ok (with_private bb (record private { summary = text })))
summary bb other_scope text = err bad_scope
