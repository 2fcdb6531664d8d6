-- ===== src/Guard/Readiness.antt =====
-- src/proxyloop/guard/readiness.py: the facts that a task needs public before its call opens.
use proxy_loop.Prelude.{String, not, List, [], ◌∷◌, ◌++◌, ◌==◌, any, keep, if◌then◌else◌, string_eq}
use proxy_loop.Prelude.Texts.{text_le}
use proxy_loop.Dict.{has}
use proxy_loop.Contract.State.{Blackboard}
use proxy_loop.Guard.Policy.{distinct}
use proxy_loop.Guard.Terms.{sorted}

-- `TaskLike`
pub record TaskLike : Type 0 where
  pub channels : List String
  pub shareable : List String

-- `REQUIRED` at the task's kind: a task with a call has a row
abbrev required_row : TaskLike → List String
required_row task =
    if any (λ c. c == "cp") task.channels then "account.holder_name" ∷ "account.last4" ∷ [] else []

abbrev rows : List String → List String → List String
rows [] learned = []
rows (k ∷ ks) learned = (k ∷ ks) ++ sorted text_le learned

-- `required`
unfoldable pub required : TaskLike → List String → List String
required task learned =
    distinct (keep (λ k. any (λ s. s == k) task.shareable) (rows (required_row task) learned))

-- `missing`
unfoldable pub missing : Blackboard → List String → List String
missing bb need = keep (λ k. not (has bb.public.facts k)) need
