-- ===== src/Keeper/Tests.antt =====
-- A vendor that answers, a claim above the threshold, and a batch for one index.
use Prim.Native.String.{String}
use vendor.Base.{
  ℕ, ◌≡◌, ◌⊎◌, refl, [], ◌∷◌, none, some, true, false, ok, err, length, arith, replicate,
}
use vendor.Base.Map.{nat_eq}
use vendor.Accumulator.Batch.{manual}
use vendor.Accumulator.Processable.{ProcessableBatch}
use vendor.Chain.Events.{VaultEvent, acquisition_claimed}
use vendor.Chain.Listener.{ChainError}
use vendor.Chain.Steward.{StewardClient, Steward}
use vendor.Onchain.{Provider, SubmitterConfig, OnchainSubmitter}
use vendor.Keeper.{Vendor, Done}
use vendor.Keeper.Claims.{ClaimHandler, disabled, handle_event, default_config}
use vendor.Keeper.Claims.Threshold.{Handled, handle_event-Handled}
use vendor.Keeper.Pipeline.{KeeperLoop, extract, process_batch_pipeline}
use vendor.Keeper.Pipeline.Outcome.{Settled, process_batch_pipeline-Settled}

abbrev decimal : ℕ → String
decimal n = "n"

abbrev accepting : Provider
accepting = record {
  send_transaction = λ sent tx. ok "0xab";
  get_receipt =
      λ sent tx_hash. ok (record { block_number = none; gas_used = 21000; status = true });
}

abbrev settings : SubmitterConfig
settings = record {
  castle_address = 1;
  vendor_id = 2;
  private_key = none;
  dry_run = false;
  retry_attempts = 3;
  default_max_order_size = 100;
}

abbrev submitter : OnchainSubmitter ℕ
submitter = record { config = settings; provider = some accepting; wallet = none }

abbrev service : Vendor
service posted request = ok (record {
  status = "success";
  assets_updated = length request.assets;
  batch_id = request.batch_id;
  timestamp = 0;
})

abbrev handler : ClaimHandler ℕ ℕ
handler = record {
  config = record { claim_remainder_threshold = 100; enabled = true };
  vendor_client = service;
  index_mapper = [];
  submitter = submitter;
}

abbrev claimed : VaultEvent
claimed = acquisition_claimed (record {
  controller = 9;
  index_id = 10;
  vendor_id = 3;
  remain = 250;
  spent = 0;
  itp_minted = 0;
  vault_address = 7;
  tx_hash = 8;
  block_number = 3;
  received_at = 0;
})

abbrev idle : Done
idle = record { posted = []; sent = [] }

handle_event-Handled_example :
    let out = handle_event decimal decimal handler claimed idle in
    ((handler.config.enabled ≡ false) × (out ≡ (disabled, idle)))
    ⊎ ((handler.config.enabled ≡ true) × Handled decimal decimal handler claimed idle out)
handle_event-Handled_example =
    handle_event-Handled decimal decimal handler accepting refl (omega arith) claimed idle

default_threshold : default_config ≡ handler.config
unfolding default_config
default_threshold = refl

abbrev describe : String → ℕ → String → String
describe call index_id e = e

abbrev to_text : ChainError → String
to_text e = "error"

abbrev steward : Steward
steward = record {
  get_vault = λ i. err "down";
  get_index_assets_count = λ i. ok 1;
  get_index_assets = λ i. ok (101 ∷ replicate 15 0);
  index_created_logs = ok [];
}

abbrev client : StewardClient
client = record {
  cache_ttl_secs = 300;
  refresh_interval_secs = 300;
  vault_cache = [];
  asset_cache = [];
  known_vaults = [];
  last_refresh = none;
}

abbrev keeper : KeeperLoop ℕ
keeper = record { submitter = submitter; asset_extractor = some client; vendor_client = service }

abbrev batch : ProcessableBatch
batch = record {
  buy_orders = [];
  sell_orders = [];
  unique_index_ids = 10 ∷ [];
  vault_addresses = [];
  created_at = 0;
  flushed_at = 1;
  flush_trigger = manual;
  total_orders = 1;
  settlement_buy_orders =
      record { index_id = 10; trader_address = 5; amount = 30; vault_address = none } ∷ [];
  settlement_sell_orders = [];
}

process_batch_pipeline-Settled_example :
    Settled decimal batch
      (extract describe to_text steward 0 (10 ∷ []) (some client)).0
      keeper
      idle
      (process_batch_pipeline decimal describe to_text steward 0 5 batch keeper idle)
process_batch_pipeline-Settled_example =
    process_batch_pipeline-Settled decimal describe to_text steward keeper accepting refl refl
      (omega arith) 0 5 batch idle
