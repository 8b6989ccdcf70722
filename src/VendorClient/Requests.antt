-- ===== src/VendorClient/Requests.antt =====
-- `VendorClient` of bin/keeper/src/vendor/client.rs. The server is a parameter of each call: its
-- answer to a request may depend on all that was done before.
use Prim.Native.String.{String, ◌++◌ as str_append}
use vendor.Base.{
  ℕ, zero, suc, ◌+◌, ◌-◌, ◌*◌, ◌%◌, ◌^◌, List, [], ◌∷◌, ◌++◌, Option, none, some, Bool, ltb,
  if◌then◌else◌, Result, ok, err, unwrap_or, map_option,
}
use vendor.Keeper.{UpdateMarketDataRequest, UpdateMarketDataResponse}
use vendor.VendorClient.{
  QuoteAssetsRequest, AssetsQuote, HealthResponse, RefreshQuoteRequest, RefreshQuoteResponse,
  VendorError, request_failed, non_success_status, timeout, retry_exhausted, serde_error, to_string,
  Answer, not_sent, answered, requested, slept, Trace, is_success_status,
}

pub record UpdateMarketDataConfig : Type 0 where
  pub endpoint : String
  pub timeout_secs : ℕ
  pub retry_attempts : ℕ

abbrev pub default_config : UpdateMarketDataConfig
default_config = record { endpoint = "/update-market-data"; timeout_secs = 30; retry_attempts = 3 }

pub record VendorClient : Type 0 where
  pub base_url : String
  pub timeout : ℕ
  pub retry_attempts : ℕ
  pub update_market_data_config : UpdateMarketDataConfig

unfoldable pub with_update_market_data_config :
    (base_url : String) (timeout_secs retry_attempts : ℕ) → UpdateMarketDataConfig → VendorClient
with_update_market_data_config base_url timeout_secs retry_attempts config = record {
  base_url = base_url;
  timeout = timeout_secs;
  retry_attempts = retry_attempts;
  update_market_data_config = config;
}

unfoldable pub new_client : (base_url : String) (timeout_secs retry_attempts : ℕ) → VendorClient
unfolding with_update_market_data_config
new_client base_url timeout_secs retry_attempts =
    with_update_market_data_config base_url timeout_secs retry_attempts default_config

-- One request with what an answer to it means: the error of a request that fails, of a status that
-- is no success, and of a body that cannot be parsed.
unfoldable pub read_answer :
    {B E : Type 0}
    → (not_sent_error : Bool → String → E) → (status_error : ℕ → Option String → E)
    → (parse_error : String → E) → Answer B
    → Result B E
read_answer not_sent_error status_error parse_error (not_sent is_timeout reason) =
    err (not_sent_error is_timeout reason)
read_answer not_sent_error status_error parse_error (answered status text body) =
    if is_success_status status
    then elim body [ ok b ↦ ok b | err e ↦ err (parse_error e) ]
    else err (status_error status text)

-- The reading of an answer in `try_refresh_quote_request` and `try_update_market_data_request`.
unfoldable pub read_vendor_answer :
    {B : Type 0} → (parse_text url : String) (timeout_secs : ℕ) → Answer B → Result B VendorError
unfolding read_answer
read_vendor_answer parse_text url timeout_secs =
    read_answer
      (λ is_timeout reason.
        if is_timeout then timeout url timeout_secs else request_failed url reason)
      (λ status text. non_success_status status (unwrap_or text "Failed to read response body"))
      (λ e. serde_error (str_append parse_text e))

-- The reading of an answer where any error is only a text.
unfoldable pub read_plain_answer :
    {B : Type 0} → (print_status : ℕ → String) (failed_text : String) → Answer B → Result B String
unfolding read_answer
read_plain_answer print_status failed_text =
    read_answer (λ is_timeout reason. reason)
      (λ status text. str_append failed_text (str_append ": HTTP " (print_status status))) (λ e. e)

-- The loop over the attempts, with the attempts left, the number of the next one, and the last error.
module _ {B E : Type 0} (url : String) (delay : ℕ → ℕ) (attempt : Trace → Result B E)
    (retry_attempts : ℕ) where
  -- The pause after a failed attempt, but for the last.
  abbrev pub pause : ℕ → Trace → Trace
  pause number trace =
      if ltb number retry_attempts then trace ++ slept (delay number) ∷ [] else trace

  unfoldable pub attempt_loop :
      (attempts_left number : ℕ) → Option E → Trace → Result B (Option E) × Trace
  attempt_loop zero number last_error trace = (err last_error, trace)
  attempt_loop (suc attempts_left) number last_error trace = elim (attempt trace) [
    | ok b ↦ (ok b, trace ++ requested url ∷ [])
    | err e ↦
        attempt_loop attempts_left (number + 1) (some e)
          (pause number (trace ++ requested url ∷ []))
  ]

-- `500 * (1u64 << (attempt - 1))`, where the shift is by the low six bits and the product wraps.
abbrev pub exponential_delay : ℕ → ℕ
exponential_delay number = 500 * 2 ^ ((number - 1) % 64) % 18446744073709551616

abbrev pub linear_delay : ℕ → ℕ
linear_delay number = 500 * number

-- What the loop gives where all attempts fail.
abbrev pub exhausted :
    {B : Type 0}
    → (decimal : ℕ → String) (unknown : String) (attempts : ℕ)
    → Result B (Option VendorError) × Trace
    → Result B VendorError × Trace
exhausted decimal unknown attempts (ok b, trace) = (ok b, trace)
exhausted decimal unknown attempts (err last_error, trace) = (
  err (retry_exhausted attempts (unwrap_or (map_option (to_string decimal) last_error) unknown)),
  trace,
)

abbrev pub last_or_failed :
    {B : Type 0} → Result B (Option String) × Trace → Result B String × Trace
last_or_failed (ok b, trace) = (ok b, trace)
last_or_failed (err last_error, trace) =
    (err (unwrap_or last_error "All retry attempts failed"), trace)

-- A status is printed with its name.
module _ (print_status : ℕ → String) where
  unfoldable pub health_check :
      (Trace → Answer HealthResponse) → VendorClient → Trace → Result HealthResponse String × Trace
  unfolding read_plain_answer
  health_check server client trace = (
    read_plain_answer print_status "Health check failed" (server trace),
    trace ++ requested (str_append client.base_url "/health") ∷ [],
  )

  unfoldable pub quote_assets :
      {Number : Type 0}
      → (Trace → QuoteAssetsRequest → Answer (AssetsQuote Number))
      → VendorClient
      → List ℕ
      → Trace
      → Result (AssetsQuote Number) String × Trace
  unfolding attempt_loop read_plain_answer
  quote_assets server client asset_ids trace =
      let request : QuoteAssetsRequest = record { assets = asset_ids } in
      let attempt =
        λ (t : Trace). read_plain_answer print_status "Quote request failed" (server t request) in
      last_or_failed (
        attempt_loop (str_append client.base_url "/quote_assets") linear_delay attempt
          client.retry_attempts client.retry_attempts 1 none trace)

module _ (decimal : ℕ → String) where
  unfoldable pub update_market_data :
      (Trace → UpdateMarketDataRequest → Answer UpdateMarketDataResponse)
      → VendorClient
      → UpdateMarketDataRequest
      → Trace
      → Result UpdateMarketDataResponse VendorError × Trace
  unfolding attempt_loop read_vendor_answer to_string
  update_market_data server client request trace =
      let config = client.update_market_data_config in
      let url = str_append client.base_url config.endpoint in
      let attempt = λ (t : Trace).
        read_vendor_answer "Failed to parse response: " url config.timeout_secs
          (server t request) in
      exhausted decimal "Unknown error" config.retry_attempts (
        attempt_loop url exponential_delay attempt config.retry_attempts config.retry_attempts 1
          none trace)

  unfoldable pub refresh_quote :
      (Trace → RefreshQuoteRequest → Answer RefreshQuoteResponse)
      → VendorClient
      → (index_id : ℕ) → (correlation_id : Option String) → Trace
      → Result RefreshQuoteResponse VendorError × Trace
  unfolding attempt_loop read_vendor_answer to_string
  refresh_quote server client index_id correlation_id trace =
      let request : RefreshQuoteRequest = record {
        index_id = index_id;
        correlation_id = correlation_id;
      } in
      let url = str_append client.base_url "/refresh-quote" in
      let attempt = λ (t : Trace).
        read_vendor_answer "Failed to parse refresh response: " url client.timeout
          (server t request) in
      exhausted decimal "Unknown" client.retry_attempts (
        attempt_loop url exponential_delay attempt client.retry_attempts client.retry_attempts 1
          none trace)
