-- ===== src/VendorClient/Retries.antt =====
-- The attempts of the vendor client.
use Prim.Native.String.{String, ◌++◌ as str_append}
use vendor.Base.{
  ℕ, zero, suc, ◌+◌, ◌-◌, ◌<◌, ◌≡◌, refl, ap, ◌∙◌, ◌⊎◌, inl, inr, [], ◌∷◌, ◌++◌, Option, none, some,
  true, false, ltb, Result, ok, err, is_err, arith, Result-cases,
}
use vendor.Keeper.{UpdateMarketDataRequest, UpdateMarketDataResponse}
use vendor.VendorClient.{VendorError, retry_exhausted, to_string, Answer, requested, slept, Trace}
use vendor.VendorClient.Requests.{
  VendorClient, read_vendor_answer, attempt_loop, pause, exponential_delay, exhausted,
  update_market_data,
}

module _ {B E : Type 0} (url : String) (delay : ℕ → ℕ) (attempt : Trace → Result B E) where
  -- What was done before the attempt that `k` failed ones precede: each of them was followed by its
  -- pause. The first of them has number `n`.
  abbrev pub before : (k n : ℕ) → Trace → Trace
  before zero n trace = trace
  before (suc k) n trace = before k (n + 1) (trace ++ requested url ∷ [] ++ slept (delay n) ∷ [])

  -- The first `k` attempts fail.
  abbrev pub AllFail : (k n : ℕ) → Trace → Type 0
  AllFail k n trace = (j : ℕ) → j < k → is_err (attempt (before j n trace)) ≡ true

  abbrev pub tried : Trace → Trace
  tried trace = trace ++ requested url ∷ []

  -- Of `k` attempts the first one that succeeds gives the result and is the last one made; or all fail,
  -- and there is no pause after the last one, whose error is kept.
  abbrev pub Attempts : (k n : ℕ) → Trace → Result B (Option E) × Trace → Type 0
  Attempts k n trace out =
      ((j : ℕ) × (b : B) × (j < k)
        × AllFail j n trace
        × (attempt (before j n trace) ≡ ok b)
        × (out ≡ (ok b, tried (before j n trace))))
      ⊎ ((j : ℕ) × (e : E) × (k ≡ suc j)
          × AllFail j n trace
          × (attempt (before j n trace) ≡ err e)
          × (out ≡ (err (some e), tried (before j n trace))))

  AllFail-shift :
      (k n : ℕ) (trace : Trace)
      → is_err (attempt trace) ≡ true
      → AllFail k (n + 1) (tried trace ++ slept (delay n) ∷ [])
      → AllFail (suc k) n trace
  AllFail-shift k n trace first rest zero h = first
  AllFail-shift k n trace first rest (suc j) h = rest j (omega arith)

  Attempts-shift :
      (k n : ℕ) (trace : Trace) (out : Result B (Option E) × Trace)
      → is_err (attempt trace) ≡ true
      → Attempts k (n + 1) (tried trace ++ slept (delay n) ∷ []) out
      → Attempts (suc k) n trace out
  Attempts-shift k n trace out first (inl (j, b, below, fail, hit, result)) =
      inl (suc j, b, omega arith, AllFail-shift j n trace first fail, hit, result)
  Attempts-shift k n trace out first (inr (j, e, count, fail, hit, result)) =
      inr (suc j, e, ap suc count, AllFail-shift j n trace first fail, hit, result)

  module _ (retry_attempts : ℕ) where
    attempt_loop-failed :
        (k n : ℕ) (last : Option E) (error : E) (trace : Trace)
        → attempt trace ≡ err error
        → attempt_loop url delay attempt retry_attempts (suc k) n last trace
          ≡ attempt_loop url delay attempt retry_attempts k
              (n + 1)
              (some error)
              (pause url delay attempt retry_attempts n (tried trace))
    unfolding attempt_loop
    attempt_loop-failed k n last error trace e = rw (e, attempt_loop)

    attempt_loop-Attempts :
        (k n : ℕ) (last : Option E) (trace : Trace)
        → n + k ≡ retry_attempts
        → Attempts
            (suc k)
            n
            trace
            (attempt_loop url delay attempt retry_attempts (suc k) n last trace)
    unfolding attempt_loop
    attempt_loop-Attempts zero n last trace count = elim (Result-cases (attempt trace)) [
      | inl (b, e) ↦ inl (0, b, omega arith, λ j h. elim h [ ], e, rw (e, attempt_loop))
      | inr (error, e) ↦
          let last_one : ltb n retry_attempts ≡ false = ground (arith, count) in
          inr (0, error, refl, λ j h. elim h [ ], e, rw (e, attempt_loop, last_one))
    ]
    attempt_loop-Attempts (suc k) n last trace count = elim (Result-cases (attempt trace)) [
      | inl (b, e) ↦ inl (0, b, omega arith, λ j h. elim h [ ], e, rw (e, attempt_loop))
      | inr (error, e) ↦
          let more : ltb n retry_attempts ≡ true = ground (arith, count) in
          let paused : pause url delay attempt retry_attempts n (tried trace)
              ≡ tried trace ++ slept (delay n) ∷ [] =
            rw more in
          rw (attempt_loop-failed (suc k) n last error trace e, paused)
            (Attempts-shift (suc k) n trace _ (rw e) (
              attempt_loop-Attempts k (n + 1) (some error) (tried trace ++ slept (delay n) ∷ [])
                (omega (arith, count))))
    ]

-- The reading of the answer to the request after what `trace` says was done.
abbrev pub answer_of :
    (Trace → UpdateMarketDataRequest → Answer UpdateMarketDataResponse)
    → VendorClient
    → UpdateMarketDataRequest
    → Trace
    → Result UpdateMarketDataResponse VendorError
answer_of server client request trace =
    read_vendor_answer "Failed to parse response: "
      (str_append client.base_url client.update_market_data_config.endpoint)
      client.update_market_data_config.timeout_secs (server trace request)

-- A client that may make an attempt makes them until one succeeds, and pauses after each failed one
-- but the last: the result is that of the first attempt that succeeds, and where all of them fail,
-- the error counts them and has the text of the last one's error.
pub update_market_data-Attempts :
    (decimal : ℕ → String)
    (server : Trace → UpdateMarketDataRequest → Answer UpdateMarketDataResponse)
    (client : VendorClient) (request : UpdateMarketDataRequest) (trace : Trace)
    → let config = client.update_market_data_config in
      let url = str_append client.base_url config.endpoint in
      let attempt = answer_of server client request in
      let at = λ (j : ℕ). before url exponential_delay attempt j 1 trace in
      let out = update_market_data decimal server client request trace in
      0 < config.retry_attempts
      → ((j : ℕ) × (b : UpdateMarketDataResponse) × (j < config.retry_attempts)
          × AllFail url exponential_delay attempt j 1 trace
          × (attempt (at j) ≡ ok b)
          × (out ≡ (ok b, at j ++ requested url ∷ [])))
        ⊎ ((j : ℕ) × (e : VendorError) × (config.retry_attempts ≡ suc j)
            × AllFail url exponential_delay attempt j 1 trace
            × (attempt (at j) ≡ err e)
            × (out ≡ (
              err (retry_exhausted (suc j) (to_string decimal e)),
              at j ++ requested url ∷ [],
            )))
unfolding update_market_data
update_market_data-Attempts decimal server client request trace some_attempt =
    let config = client.update_market_data_config in
    let url = str_append client.base_url config.endpoint in
    let attempt = answer_of server client request in
    let n = config.retry_attempts in
    let count : n ≡ suc (n - 1) = omega arith in
    let loop : ℕ → Result UpdateMarketDataResponse (Option VendorError) × Trace =
      λ k. attempt_loop url exponential_delay attempt n k 1 none trace in
    let out : Attempts url exponential_delay attempt (suc (n - 1)) 1 trace (loop (suc (n - 1))) =
      attempt_loop-Attempts url exponential_delay attempt n (n - 1) 1 none trace (omega arith) in
    let finish = exhausted decimal "Unknown error" n in
    elim out [
      | inl (j, b, below, fail, hit, result) ↦
          inl (j, b, omega arith, fail, hit, ap finish (ap loop count ∙ result))
      | inr (j, e, all, fail, hit, result) ↦ inr (
        j,
        e,
        count ∙ all,
        fail,
        hit,
        ap finish (ap loop count ∙ result)
            ∙ ap
                (λ m. (
                  err (retry_exhausted m (to_string decimal e)),
                  before url exponential_delay attempt j 1 trace ++ requested url ∷ [],
                ))
                (count ∙ all),
      )
    ]
