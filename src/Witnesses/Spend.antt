-- ===== src/Witnesses/Spend.antt =====
-- The theorem on spend at work (src/proxyloop/llm/spend.py).
use proxy_loop.Prelude.{
  ◌+◌, ◌≡◌, refl, none, some, List, [], ◌∷◌, arith, length, String-discrete, ℕ_discrete,
}
use proxy_loop.Dict.{get, put}
use proxy_loop.Llm.Spend.{
  LlmCallRecord, Endpoint, relay, vllm, openrouter, LlmRole, LlmRole-discrete, SpendLedger,
  RateTables, total, charge, price, micro_usd, rate_of, count_call, add_price, sum, new_spend,
}
use proxy_loop.Llm.Spend.Limits.{IsWithin, charge_all, charge_all-IsWithin, prices, priced_calls}

-- three and fifteen dollars per million tokens
abbrev rate_tables : RateTables
rate_tables = record {
  relay_rates =
      ("m1", record { input = 3000; output = 15000; cache_read = none; cache_write = none }) ∷ [];
  openrouter_rates = [];
  anthropic_rates = [];
}

abbrev session_spend : SpendLedger
session_spend = record {
  tables = rate_tables;
  factor = 3;
  limit_micro_usd = 2000000;
  limit_tokens = 30000;
  limit_unpriced_calls = 6;
  by_role = [];
  unpriced_by_role = [];
  unpriced_calls = 0;
  gpu_time_calls = 0;
  tokens_used = 0;
}

session_starts :
    new_spend 10000 2 2000000 rate_tables (record { endpoint = some relay; model_id = "m1" } ∷ [])
    ≡ some session_spend
unfolding new_spend rate_of get String-discrete
session_starts = refl

abbrev call_to : Endpoint → LlmCallRecord
call_to e = record {
  call_id = "c";
  role = LlmRole.slow;
  model_ref = record { endpoint = some e; model_id = "m1" };
  usage = some (record {
    prompt_tokens = 1000;
    completion_tokens = 100;
    cache_read_tokens = none;
    cache_write_tokens = none;
  });
  attempt = 0;
}

-- a priced call, one on a GPU, one without a rate
abbrev three_calls : List LlmCallRecord
three_calls = call_to relay ∷ call_to vllm ∷ call_to openrouter ∷ []

abbrev after_three : SpendLedger
after_three = record session_spend {
  by_role = (LlmRole.slow, 4500) ∷ [];
  unpriced_by_role = (LlmRole.slow, 1) ∷ [];
  unpriced_calls = 1;
  gpu_time_calls = 1;
  tokens_used = 2200;
}

charge_all-IsWithin_example :
    IsWithin after_three
    × (total after_three ≡ total session_spend + prices session_spend three_calls)
    × (after_three.unpriced_calls
          + after_three.gpu_time_calls
          + priced_calls session_spend three_calls
        ≡ session_spend.unpriced_calls + session_spend.gpu_time_calls + length three_calls)
unfolding charge_all charge price micro_usd rate_of count_call add_price sum get put String-discrete
    LlmRole-discrete ℕ_discrete
charge_all-IsWithin_example =
    charge_all-IsWithin session_spend after_three three_calls
      (omega arith, omega arith, omega arith) refl
