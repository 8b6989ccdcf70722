-- ===== src/VendorClient/Tests.antt =====
-- A server that answers the third request, and one that never does.
use Prim.Native.String.{String}
use vendor.Base.{
  ℕ, suc, ◌<◌, ◌≡◌, ◌⊎◌, refl, [], ◌∷◌, ◌++◌, none, some, true, false, length, leb, if◌then◌else◌,
  ok, err, arith,
}
use vendor.Keeper.{UpdateMarketDataRequest, UpdateMarketDataResponse}
use vendor.VendorClient.{
  AssetsQuote, VendorError, retry_exhausted, timeout, non_success_status, serde_error, to_string,
  len, Answer, not_sent, answered, requested, slept, Trace,
}
use vendor.VendorClient.Requests.{
  VendorClient, new_client, exponential_delay, update_market_data, refresh_quote, quote_assets,
  health_check,
}
use vendor.VendorClient.Retries.{answer_of, before, AllFail, update_market_data-Attempts}

abbrev client : VendorClient
client = record {
  base_url = "http://v";
  timeout = 10;
  retry_attempts = 2;
  update_market_data_config = record {
    endpoint = "/update-market-data";
    timeout_secs = 30;
    retry_attempts = 3;
  };
}

abbrev url : String
url = "http://v/update-market-data"

abbrev request : UpdateMarketDataRequest
request = record { assets = 101 ∷ []; batch_id = "manual:keeper:1" }

abbrev response : UpdateMarketDataResponse
response = record {
  status = "success";
  assets_updated = 1;
  batch_id = "manual:keeper:1";
  timestamp = 5;
}

-- By what was done: nothing, one failed attempt with its pause, or two.
abbrev server : Trace → UpdateMarketDataRequest → Answer UpdateMarketDataResponse
server trace r =
    if leb 4 (length trace)
    then answered 200 none (ok response)
    else if leb 2 (length trace)
    then not_sent true "late"
    else answered 503 (some "busy") (err "no JSON")

abbrev down : {Q B : Type 0} → Trace → Q → Answer B
down trace r = not_sent false "refused"

abbrev decimal : ℕ → String
decimal n = if leb n 2 then "2" else "many"

new_client_lem : new_client "http://v" 10 2 ≡ client
unfolding new_client
new_client_lem = refl

third_attempt :
    update_market_data decimal server client request []
    ≡ (ok response, requested url ∷ slept 500 ∷ requested url ∷ slept 1000 ∷ requested url ∷ [])
unfolding update_market_data
third_attempt = refl

no_attempt : update_market_data decimal down client request [] ≡ (
  err (retry_exhausted 3 "Request to http://v/update-market-data failed: refused"),
  requested url ∷ slept 500 ∷ requested url ∷ slept 1000 ∷ requested url ∷ [],
)
unfolding update_market_data
no_attempt = refl

update_market_data-Attempts_example :
    let attempt = answer_of server client request in
    let at = λ (j : ℕ). before url exponential_delay attempt j 1 [] in
    let out = update_market_data decimal server client request [] in
    ((j : ℕ) × (b : UpdateMarketDataResponse) × (j < 3)
      × AllFail url exponential_delay attempt j 1 []
      × (attempt (at j) ≡ ok b)
      × (out ≡ (ok b, at j ++ requested url ∷ [])))
    ⊎ ((j : ℕ) × (e : VendorError) × (◌≡◌ {A = ℕ} 3 (suc j))
        × AllFail url exponential_delay attempt j 1 []
        × (attempt (at j) ≡ err e)
        × (out ≡ (err (retry_exhausted (suc j) (to_string decimal e)), at j ++ requested url ∷ [])))
update_market_data-Attempts_example =
    update_market_data-Attempts decimal server client request [] (omega arith)

refreshed :
    (refresh_quote decimal down client 7 none []).1
    ≡ requested "http://v/refresh-quote" ∷ slept 500 ∷ requested "http://v/refresh-quote" ∷ []
unfolding refresh_quote
refreshed = refl

quotes : quote_assets decimal (down {B = AssetsQuote ℕ}) client (101 ∷ []) [] ≡ (
  err "refused",
  requested "http://v/quote_assets" ∷ slept 500 ∷ requested "http://v/quote_assets" ∷ [],
)
unfolding quote_assets
quotes = refl

unhealthy :
    health_check decimal (λ t. answered 2 none (err "no JSON")) client []
    ≡ (err "Health check failed: HTTP 2", requested "http://v/health" ∷ [])
unfolding health_check
unhealthy = refl

quote_len :
    len {Number = ℕ} (record { assets = 1 ∷ 2 ∷ []; liquidity = []; prices = []; slopes = [] }) ≡ 2
unfolding len
quote_len = refl

texts :
    (to_string decimal (timeout "u" 2) ≡ "Request to u timed out after 2s")
    × (to_string decimal (non_success_status 2 "busy") ≡ "Vendor returned HTTP 2: busy")
    × (to_string decimal (serde_error "x") ≡ "Serialization error: x")
unfolding to_string
texts = (refl, refl, refl)
