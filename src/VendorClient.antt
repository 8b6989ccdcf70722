-- ===== src/VendorClient.antt =====
-- The client of the vendor's service, bin/keeper/src/vendor. This file is types.rs, with the HTTP
-- answers that the client reads as a parameter. A floating-point number is only passed on, so its
-- type is a parameter too.
pub mod Requests
pub mod Retries
mod Tests
use Prim.Native.String.{String, ◌++◌ as str_append}
use vendor.Base.{
  ℕ, List, [], ◌∷◌, Option, none, some, Bool, true, false, ◌&&◌, leb, ltb, if◌then◌else◌, length,
  Result, ok, err, unwrap_or,
}

pub record QuoteAssetsRequest : Type 0 where
  pub assets : List ℕ

pub record AssetsQuote (Number : Type 0) : Type 0 where
  pub assets : List ℕ
  pub liquidity : List Number
  pub prices : List Number
  pub slopes : List Number

unfoldable pub len : {Number : Type 0} → AssetsQuote Number → ℕ
len quote = length quote.assets

pub record HealthResponse : Type 0 where
  pub status : String
  pub vendor_id : ℕ
  pub tracked_assets : ℕ

pub record RefreshQuoteRequest : Type 0 where
  pub index_id : ℕ
  pub correlation_id : Option String

pub record RefreshQuoteResponse : Type 0 where
  pub success : Bool
  pub index_id : ℕ
  pub tx_hash : Option String
  pub correlation_id : Option String
  pub error : Option String

pub data VendorError : Type 0 where
  request_failed : (url reason : String) → VendorError
  non_success_status : (status : ℕ) (body : String) → VendorError
  timeout : (url : String) (timeout_secs : ℕ) → VendorError
  retry_exhausted : (attempts : ℕ) (last_error : String) → VendorError
  serde_error : String → VendorError

-- `Display`; `decimal` prints a number.
unfoldable pub to_string : (decimal : ℕ → String) → VendorError → String
to_string decimal (request_failed url reason) =
    str_append "Request to " (str_append url (str_append " failed: " reason))
to_string decimal (non_success_status status body) =
    str_append "Vendor returned HTTP " (str_append (decimal status) (str_append ": " body))
to_string decimal (timeout url timeout_secs) =
    str_append "Request to "
      (str_append url (str_append " timed out after " (str_append (decimal timeout_secs) "s")))
to_string decimal (retry_exhausted attempts last_error) =
    str_append "All "
      (str_append (decimal attempts) (str_append " retry attempts failed. Last error: " last_error))
to_string decimal (serde_error msg) = str_append "Serialization error: " msg

-- What the HTTP library gives for one request: no answer, or a status with the text of the body, if
-- it can be read, and what is parsed of it.
pub data Answer (B : Type 0) : Type 0 where
  not_sent : (is_timeout : Bool) (reason : String) → Answer B
  answered : (status : ℕ) (text : Option String) (body : Result B String) → Answer B

-- What the client does to the outside, the oldest first.
pub data Action : Type 0 where
  requested : (url : String) → Action
  slept : (milliseconds : ℕ) → Action

abbrev pub Trace : Type 0
Trace = List Action

-- `StatusCode::is_success`
abbrev pub is_success_status : ℕ → Bool
is_success_status status = leb 200 status && ltb status 300
