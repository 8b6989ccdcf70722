-- ===== src/Pairs/Fetch.antt =====
-- The requests to Bitget and the run of the script bin/scripts/src/bin/list_bitget_pairs.rs. What the
-- API answers, and how a status is printed, are parameters; so are the client, which is built, and
-- the file of the last run.
use Prim.Native.String.{String, ◌++◌ as str_append}
use vendor.Base.{
  ℕ, zero, suc, ◌+◌, ◌-◌, ◌*◌, ◌^◌, List, [], ◌∷◌, ◌++◌, Option, none, some, Bool, true, false, ltb,
  min, nat_beq, if◌then◌else◌, map, not, ◌&&◌, is_empty_list, Result, ok, err,
}
use vendor.Base.Map.{string_eq, ◌==◌}
use vendor.VendorClient.{Answer, not_sent, answered, requested, slept, Trace, is_success_status}
use vendor.Pairs.{BitgetProduct, OutputPair, SolidityPair, Stats, Walk, list_pairs, solidity_pair}
use vendor.Pairs.Changes.{Change, check_for_changes}

pub record BitgetResponse : Type 0 where
  pub code : String
  pub msg : String
  pub products : Option (List BitgetProduct)

abbrev pub max_retries : ℕ
max_retries = 3

abbrev pub base_retry_delay_ms : ℕ
base_retry_delay_ms = 500

-- `u64::MAX`
abbrev pub u64_max : ℕ
u64_max = 18446744073709551615

-- `saturating_sub`, `checked_shl`, which fails from 64 on, and `saturating_mul`. The shifted 1 stays
-- below 2 ^ 64.
unfoldable pub exponential_backoff : (attempt : ℕ) → ℕ
exponential_backoff attempt =
    let shift = attempt - 1 in
    let multiplier = if ltb shift 64 then 2 ^ shift else u64_max in
    min (base_retry_delay_ms * multiplier) u64_max

-- What an answer of the API means: products, a limit on the rate, an error that is tried again,
-- or one that ends the fetch.
pub data Fetched : Type 0 where
  products : List BitgetProduct → Fetched
  rate_limited : Fetched
  retried : (error : String) → Fetched
  failed : (error : String) → Fetched

unfoldable pub read_response : BitgetResponse → Fetched
read_response r =
    if r.code == "00000"
    then elim r.products [
      | none ↦ failed "Empty response data"
      | some [] ↦ failed "Bitget returned empty products list - this is unexpected"
      | some (p ∷ ps) ↦ products (p ∷ ps)
    ]
    else failed (str_append "Bitget API error: " (str_append r.code (str_append " - " r.msg)))

-- How a run of `main` ends.
pub data Run : Type 0 where
  fetch_error : String → Run
  unreadable : String → Run
  up_to_date : Stats → Run
  dry_run : Stats → List Change → Run
  written : Stats → List OutputPair → List SolidityPair → Run

pub record Args : Type 0 where
  pub force : Bool
  pub dry_run : Bool

-- From the changes on. The directory and the two files are taken to be written.
unfoldable pub finish : Args → List OutputPair → Stats → List Change → Run
unfolding solidity_pair
finish args output_pairs stats changes =
    if is_empty_list changes && not args.force
    then up_to_date stats
    else if args.dry_run
    then dry_run stats changes
    else written stats output_pairs (map solidity_pair output_pairs)

module _ (print_status : ℕ → String) where
  unfoldable pub read_fetched : Answer BitgetResponse → Fetched
  unfolding read_response
  read_fetched (not_sent is_timeout reason) = retried reason
  read_fetched (answered status text body) =
      if nat_beq status 429
      then rate_limited
      else if is_success_status status
      then elim body [ ok r ↦ read_response r | err e ↦ failed e ]
      else retried (str_append "API returned error status: " (print_status status))

  -- The loop over the attempts, with those left and the number of the next one. After a limit on the
  -- rate, the last attempt is followed by its pause too.
  unfoldable pub fetch_loop :
      (Trace → Answer BitgetResponse)
      → (url : String) → (attempts_left attempt : ℕ) → Trace
      → Result (List BitgetProduct) String × Trace
  unfolding read_fetched exponential_backoff
  fetch_loop server url zero attempt trace =
      (err "Failed to fetch products after 3 attempts", trace)
  fetch_loop server url (suc attempts_left) attempt trace =
      let trace' = trace ++ requested url ∷ [] in
      elim (read_fetched (server trace)) [
        | products ps ↦ (ok ps, trace')
        | failed e ↦ (err e, trace')
        | rate_limited ↦
            fetch_loop server url attempts_left (attempt + 1)
              (trace' ++ slept (exponential_backoff attempt * 2) ∷ [])
        | retried e ↦ elim (ltb attempt max_retries) [
          | true ↦
              fetch_loop server url attempts_left (attempt + 1)
                (trace' ++ slept (exponential_backoff attempt) ∷ [])
          | false ↦ (err e, trace')
        ]
      ]

  unfoldable pub fetch_bitget_products :
      (Trace → Answer BitgetResponse) → Trace → Result (List BitgetProduct) String × Trace
  unfolding fetch_loop
  fetch_bitget_products server =
      fetch_loop server "https://api.bitget.com/api/v2/spot/public/symbols" max_retries 1

  unfoldable pub main :
      (Trace → Answer BitgetResponse)
      → Walk
      → (existing : Option (Result (List OutputPair) String)) → Args
      → Run
  unfolding fetch_bitget_products list_pairs check_for_changes finish
  main server walk existing args = elim (fetch_bitget_products server []).0 [
    | err e ↦ fetch_error e
    | ok ps ↦
        let (output_pairs, stats) = list_pairs walk ps in
        elim (check_for_changes existing output_pairs) [
          | err e ↦ unreadable e
          | ok changes ↦ finish args output_pairs stats changes
        ]
  ]
