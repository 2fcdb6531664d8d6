-- ===== src/Llm/Spend.antt =====
-- The spend ledger (src/proxyloop/llm/spend.py, with the call records of contract/llm.py). A rate is
-- kept in thousandths of a dollar per million tokens, in which the tables' rates are whole, and a price
-- is computed in them and rounded half to even; the source computes it in floats.
pub mod Limits
use proxy_loop.Prelude.{
  ℕ, ◌+◌, ◌-◌, ◌*◌, ◌/◌, ◌%◌, String, Bool, true, false, not, ◌&&◌, ◌||◌, Option, none, some, List,
  [], ◌∷◌, ◌==◌, Eq, eq_of, all, leb, ltb, is_none, if◌then◌else◌, string_eq, nat_eq, Result, ok,
  err,
}
use proxy_loop.Dict.{Dict, get, put, values}

pub data Endpoint : Type 0 where
  relay teamrouter vllm openrouter anthropic : Endpoint

pub data LlmRole : Type 0 where
  fast_user fast_cp slow ear mouth simuser teacher : LlmRole

unfoldable pub LlmRole-discrete : Discrete LlmRole
LlmRole-discrete = hlevel

instance abbrev pub llm_role_eq : Eq LlmRole
llm_role_eq = eq_of LlmRole-discrete

-- `Usage`
pub record Usage : Type 0 where
  pub prompt_tokens : ℕ
  pub completion_tokens : ℕ
  pub cache_read_tokens : Option ℕ
  pub cache_write_tokens : Option ℕ

abbrev pub or_zero : Option ℕ → ℕ
or_zero none = 0
or_zero (some n) = n

-- `_within_prompt`
abbrev pub valid_usage : Usage → Bool
valid_usage u = leb (or_zero u.cache_read_tokens + or_zero u.cache_write_tokens) u.prompt_tokens

-- `ModelRef`
pub record ModelRef : Type 0 where
  pub endpoint : Option Endpoint
  pub model_id : String

-- `LLMCallRecord`: what the ledger reads
pub record LlmCallRecord : Type 0 where
  pub call_id : String
  pub role : LlmRole
  pub model_ref : ModelRef
  pub usage : Option Usage
  pub attempt : ℕ

pub record Rate : Type 0 where
  pub input : ℕ
  pub output : ℕ
  pub cache_read : Option ℕ
  pub cache_write : Option ℕ

abbrev larger : ℕ → ℕ → ℕ
larger a b = if ltb a b then b else a

-- the input's price, by the split into cached parts
abbrev pub split_price : Rate → Usage → ℕ → ℕ → Option ℕ → Option ℕ → ℕ
split_price r u cr cw (some read) (some write) =
    (u.prompt_tokens - read - write) * r.input + (read * cr + write * cw)
split_price r u cr cw _ _ = u.prompt_tokens * larger cw r.input

abbrev pub prompt_price : Rate → Usage → Option ℕ → Option ℕ → ℕ
prompt_price r u (some cr) (some cw) =
    split_price r u cr cw u.cache_read_tokens u.cache_write_tokens
prompt_price r u _ _ = u.prompt_tokens * r.input

-- `round`, of thousandths
abbrev pub round_thousandths : ℕ → ℕ
round_thousandths n =
    let q = n / 1000 in
    let r = n % 1000 in if ltb r 500 then q else if ltb 500 r then q + 1 else q + q % 2

-- `Rate.micro_usd`
unfoldable pub micro_usd : Rate → Usage → ℕ
micro_usd r u =
    round_thousandths (prompt_price r u r.cache_read r.cache_write + u.completion_tokens * r.output)

pub data Basis : Type 0 where
  tokens gpu_time unpriced : Basis

pub record Charge : Type 0 where
  pub call_id : String
  pub role : LlmRole
  pub attempt : ℕ
  pub endpoint : Option Endpoint
  pub model_id : String
  pub basis : Basis
  pub micro : Option ℕ

pub record RateTables : Type 0 where
  pub relay_rates : Dict String Rate
  pub openrouter_rates : Dict String Rate
  pub anthropic_rates : Dict String Rate

pub record SpendLedger : Type 0 where
  pub tables : RateTables
  pub factor : ℕ
  pub limit_micro_usd : ℕ
  pub limit_tokens : ℕ
  pub limit_unpriced_calls : ℕ
  pub by_role : Dict LlmRole ℕ
  pub unpriced_by_role : Dict LlmRole ℕ
  pub unpriced_calls : ℕ
  pub gpu_time_calls : ℕ
  pub tokens_used : ℕ

-- `_rate`
unfoldable pub rate_of : RateTables → ModelRef → Option Rate
rate_of t ref = elim ref.endpoint [
  | some relay ↦ get t.relay_rates ref.model_id
  | some openrouter ↦ get t.openrouter_rates ref.model_id
  | some anthropic ↦ get t.anthropic_rates ref.model_id
  | _ ↦ none
]

abbrev pub is_vllm : Option Endpoint → Bool
is_vllm (some vllm) = true
is_vllm _ = false

abbrev pub runaway_factor : ℕ
runaway_factor = 3

abbrev pub unpriced_factor : ℕ
unpriced_factor = 1

abbrev pub session_cap_micro_usd : ℕ
session_cap_micro_usd = 2000000

-- `SpendLedger.__init__`; it refuses a projection or a cap that is not positive
unfoldable pub new_spend : ℕ → ℕ → ℕ → RateTables → List ModelRef → Option SpendLedger
unfolding rate_of
new_spend projected_tokens projected_calls cap_usd t refs =
    let priced = all (λ r. is_vllm r.endpoint || not (is_none (rate_of t r))) refs in
    let factor = if priced then runaway_factor else unpriced_factor in
    if leb 1 projected_tokens && leb 1 projected_calls && leb 1 cap_usd
    then some (record {
      tables = t;
      factor = factor;
      limit_micro_usd = cap_usd;
      limit_tokens = factor * projected_tokens;
      limit_unpriced_calls = factor * projected_calls;
      by_role = [];
      unpriced_by_role = [];
      unpriced_calls = 0;
      gpu_time_calls = 0;
      tokens_used = 0;
    })
    else none

abbrev priced : Option Rate → Option Usage → Option ℕ
priced (some r) (some u) = some (micro_usd r u)
priced _ _ = none

abbrev basis_of : Bool → Option ℕ → Basis
basis_of true m = gpu_time
basis_of false (some m) = tokens
basis_of false none = unpriced

-- `price`
unfoldable pub price : SpendLedger → LlmCallRecord → Charge
price s c =
    let ref = c.model_ref in
    let on_gpu = is_vllm ref.endpoint in
    let m = if on_gpu then none else priced (rate_of s.tables ref) c.usage in
    record {
      call_id = c.call_id;
      role = c.role;
      attempt = c.attempt;
      endpoint = ref.endpoint;
      model_id = ref.model_id;
      basis = basis_of on_gpu m;
      micro = m;
    }

-- `d[role] = d.get(role, 0) + n`
abbrev pub add_to : Dict LlmRole ℕ → LlmRole → ℕ → Dict LlmRole ℕ
add_to d role n = put d role (or_zero (get d role) + n)

abbrev pub usage_tokens : Option Usage → ℕ
usage_tokens none = 0
usage_tokens (some u) = u.prompt_tokens + u.completion_tokens

-- the calls and tokens that a charge counts
unfoldable pub count_call : SpendLedger → Charge → Option Usage → SpendLedger
count_call s c usage = elim c.basis [
  | unpriced ↦ record s {
    unpriced_calls = s.unpriced_calls + 1;
    unpriced_by_role = add_to s.unpriced_by_role c.role 1;
    tokens_used = s.tokens_used + usage_tokens usage;
  }
  | gpu_time ↦ record s { gpu_time_calls = s.gpu_time_calls + 1 }
  | tokens ↦ record s { tokens_used = s.tokens_used + usage_tokens usage }
]

-- the price that a charge adds; nothing is added for a price of zero
unfoldable pub add_price : SpendLedger → Charge → SpendLedger
add_price s c =
    if or_zero c.micro == 0
    then s
    else record s { by_role = add_to s.by_role c.role (or_zero c.micro) }

unfoldable pub sum : List ℕ → ℕ
sum [] = 0
sum (n ∷ ns) = n + sum ns

-- `spend.micro_usd`
abbrev pub total : SpendLedger → ℕ
total s = sum (values s.by_role)

pub data RunawaySpend : Type 0 where
  runaway_spend runaway_tokens runaway_calls : Charge → RunawaySpend

-- `charge`: the ledger after it, and the charge or the guard that it trips
unfoldable pub charge : SpendLedger → LlmCallRecord → SpendLedger × Result RunawaySpend Charge
charge s r =
    let c = price s r in
    let s' = add_price (count_call s c r.usage) c in
    (
      s',
      if ltb s'.limit_micro_usd (total s')
          then err (runaway_spend c)
          else if ltb s'.limit_tokens s'.tokens_used
          then err (runaway_tokens c)
          else if ltb s'.limit_unpriced_calls s'.unpriced_calls
          then err (runaway_calls c)
          else ok c,
    )
