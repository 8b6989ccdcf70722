-- ===== src/Assets.antt =====
-- `AssetExtractor` of bin/keeper/src/assets/extractor.rs: the assets of several indices together.
-- What the extractor looks up in the event cache is only logged.
pub mod Union
mod Tests
use Prim.Native.String.{String}
use vendor.Base.{
  ℕ, suc, ◌+◌, List, [], ◌∷◌, ◌++◌, Option, none, some, Bool, true, false, nat_beq, if◌then◌else◌,
  length, contains, Result, ok, err, is_empty_list, ◌&&◌, not,
}
use vendor.Accumulator.Processable.{sort}
use vendor.Chain.Listener.{ChainError, vault_not_found}
use vendor.Chain.Steward.{StewardClient, Steward, get_index_assets}

pub data ExtractorError : Type 0 where
  steward_call_failed : ℕ → String → ExtractorError
  index_not_found : ℕ → ExtractorError
  byte_decode_failed : ℕ → String → ExtractorError
  chain_error : ChainError → ExtractorError
  all_indices_failed : ℕ → ExtractorError

-- `From<ChainError>`
pub from_chain_error : ChainError → ExtractorError
from_chain_error (vault_not_found index_id) = index_not_found index_id
from_chain_error error = chain_error error

pub record ExtractionResult : Type 0 where
  pub asset_ids : List ℕ
  pub successful_indices : ℕ
  pub failed_indices : ℕ
  pub failed_index_ids : List ℕ
  pub extraction_time_ms : ℕ

unfoldable pub all_succeeded : ExtractionResult → Bool
all_succeeded r = nat_beq r.failed_indices 0

unfoldable pub has_no_assets : ExtractionResult → Bool
has_no_assets r = is_empty_list r.asset_ids

-- `HashSet::extend`
pub extend : List ℕ → List ℕ → List ℕ
extend all [] = all
extend all (a ∷ rest) = extend (if contains a all then all else all ++ a ∷ []) rest

-- What the loop has found.
pub record Found : Type 0 where
  pub all_assets : List ℕ
  pub failed : List ℕ
  pub successful_count : ℕ

abbrev pub nothing_found : Found
nothing_found = record { all_assets = []; failed = []; successful_count = 0 }

abbrev pub add_answer : ℕ → Result (List ℕ) ChainError → Found → Found
add_answer index_id (ok assets) f = record f {
  all_assets = extend f.all_assets assets;
  successful_count = suc f.successful_count;
}
add_answer index_id (err e) f = record f { failed = f.failed ++ index_id ∷ [] }

-- What is returned after the loop.
pub batch_result : ℕ → List ℕ → Found → Result ExtractionResult ExtractorError
batch_result elapsed_ms index_ids f =
    if nat_beq f.successful_count 0 && not (is_empty_list index_ids)
    then err (all_indices_failed (length index_ids))
    else ok (record {
      asset_ids = sort f.all_assets;
      successful_indices = f.successful_count;
      failed_indices = length f.failed;
      failed_index_ids = f.failed;
      extraction_time_ms = elapsed_ms;
    })

-- `to_text` is the `Display` of an error.
module _ (describe : String → ℕ → String → String) (to_text : ChainError → String)
    (steward : Steward) where
  -- The loop over the indices; `now` is the clock of its calls.
  pub extract_loop : ℕ → List ℕ → Found → StewardClient → Found × StewardClient
  unfolding extend
  extract_loop now [] f c = (f, c)
  extract_loop now (index_id ∷ ids) f c =
      let (answer, c') = get_index_assets describe steward now index_id c in
      extract_loop now ids (add_answer index_id answer f) c'

  pub extract_assets_for_batch :
      (now elapsed_ms : ℕ)
      → List ℕ
      → StewardClient
      → Result ExtractionResult ExtractorError × StewardClient
  unfolding extract_loop
  extract_assets_for_batch now elapsed_ms index_ids c =
      let (f, c') = extract_loop now index_ids nothing_found c in
      if is_empty_list index_ids
      then (
        ok (record {
          asset_ids = [];
          successful_indices = 0;
          failed_indices = 0;
          failed_index_ids = [];
          extraction_time_ms = 0;
        }),
        c,
      )
      else (batch_result elapsed_ms index_ids f, c')

  pub extract_assets_for_index :
      ℕ → ℕ → StewardClient → Result (List ℕ) ExtractorError × StewardClient
  extract_assets_for_index now index_id c =
      let (answer, c') = get_index_assets describe steward now index_id c in
      elim answer [
        | ok assets ↦ (ok assets, c')
        | err e ↦ (err (steward_call_failed index_id (to_text e)), c')
      ]
