-- ===== src/Chain/Events.antt =====
-- The events of the vaults in bin/keeper/src/chain/event_types.rs: as the contracts emit them, and
-- with the vault, the transaction and the block they come from.
use vendor.Base.{ℕ, Option, none, some, Bool, true, false, not}

pub record BuyOrder : Type 0 where
  pub keeper : ℕ
  pub trader : ℕ
  pub index_id : ℕ
  pub vendor_id : ℕ
  pub collateral_amount : ℕ

pub record SellOrder : Type 0 where
  pub keeper : ℕ
  pub trader : ℕ
  pub index_id : ℕ
  pub vendor_id : ℕ
  pub itp_amount : ℕ

pub record Acquisition : Type 0 where
  pub controller : ℕ
  pub index_id : ℕ
  pub vendor_id : ℕ
  pub remain : ℕ
  pub spent : ℕ
  pub itp_minted : ℕ

pub record Disposal : Type 0 where
  pub controller : ℕ
  pub index_id : ℕ
  pub vendor_id : ℕ
  pub itp_remain : ℕ
  pub itp_burned : ℕ
  pub gains : ℕ

pub record AcquisitionClaim : Type 0 where
  pub controller : ℕ
  pub index_id : ℕ
  pub vendor_id : ℕ
  pub remain : ℕ
  pub spent : ℕ
  pub itp_minted : ℕ

pub record DisposalClaim : Type 0 where
  pub controller : ℕ
  pub index_id : ℕ
  pub vendor_id : ℕ
  pub itp_remain : ℕ
  pub itp_burned : ℕ
  pub gains : ℕ

pub record BuyOrderEvent : Type 0 where
  pub keeper : ℕ
  pub trader : ℕ
  pub index_id : ℕ
  pub vendor_id : ℕ
  pub collateral_amount : ℕ
  pub vault_address : ℕ
  pub tx_hash : ℕ
  pub block_number : ℕ
  pub received_at : ℕ

pub record SellOrderEvent : Type 0 where
  pub keeper : ℕ
  pub trader : ℕ
  pub index_id : ℕ
  pub vendor_id : ℕ
  pub itp_amount : ℕ
  pub vault_address : ℕ
  pub tx_hash : ℕ
  pub block_number : ℕ
  pub received_at : ℕ

pub record AcquisitionEvent : Type 0 where
  pub controller : ℕ
  pub index_id : ℕ
  pub vendor_id : ℕ
  pub remain : ℕ
  pub spent : ℕ
  pub itp_minted : ℕ
  pub vault_address : ℕ
  pub tx_hash : ℕ
  pub block_number : ℕ
  pub received_at : ℕ

pub record DisposalEvent : Type 0 where
  pub controller : ℕ
  pub index_id : ℕ
  pub vendor_id : ℕ
  pub itp_remain : ℕ
  pub itp_burned : ℕ
  pub gains : ℕ
  pub vault_address : ℕ
  pub tx_hash : ℕ
  pub block_number : ℕ
  pub received_at : ℕ

pub record AcquisitionClaimEvent : Type 0 where
  pub controller : ℕ
  pub index_id : ℕ
  pub vendor_id : ℕ
  pub remain : ℕ
  pub spent : ℕ
  pub itp_minted : ℕ
  pub vault_address : ℕ
  pub tx_hash : ℕ
  pub block_number : ℕ
  pub received_at : ℕ

pub record DisposalClaimEvent : Type 0 where
  pub controller : ℕ
  pub index_id : ℕ
  pub vendor_id : ℕ
  pub itp_remain : ℕ
  pub itp_burned : ℕ
  pub gains : ℕ
  pub vault_address : ℕ
  pub tx_hash : ℕ
  pub block_number : ℕ
  pub received_at : ℕ

pub data VaultEvent : Type 0 where
  buy : BuyOrderEvent → VaultEvent
  sell : SellOrderEvent → VaultEvent
  acquired : AcquisitionEvent → VaultEvent
  disposed : DisposalEvent → VaultEvent
  acquisition_claimed : AcquisitionClaimEvent → VaultEvent
  disposal_claimed : DisposalClaimEvent → VaultEvent

unfoldable pub index_id : VaultEvent → ℕ
index_id (buy e) = e.index_id
index_id (sell e) = e.index_id
index_id (acquired e) = e.index_id
index_id (disposed e) = e.index_id
index_id (acquisition_claimed e) = e.index_id
index_id (disposal_claimed e) = e.index_id

unfoldable pub trader : VaultEvent → Option ℕ
trader (buy e) = some e.trader
trader (sell e) = some e.trader
trader (acquired e) = none
trader (disposed e) = none
trader (acquisition_claimed e) = none
trader (disposal_claimed e) = none

unfoldable pub controller : VaultEvent → Option ℕ
controller (buy e) = none
controller (sell e) = none
controller (acquired e) = some e.controller
controller (disposed e) = some e.controller
controller (acquisition_claimed e) = some e.controller
controller (disposal_claimed e) = some e.controller

unfoldable pub vault_address : VaultEvent → ℕ
vault_address (buy e) = e.vault_address
vault_address (sell e) = e.vault_address
vault_address (acquired e) = e.vault_address
vault_address (disposed e) = e.vault_address
vault_address (acquisition_claimed e) = e.vault_address
vault_address (disposal_claimed e) = e.vault_address

unfoldable pub tx_hash : VaultEvent → ℕ
tx_hash (buy e) = e.tx_hash
tx_hash (sell e) = e.tx_hash
tx_hash (acquired e) = e.tx_hash
tx_hash (disposed e) = e.tx_hash
tx_hash (acquisition_claimed e) = e.tx_hash
tx_hash (disposal_claimed e) = e.tx_hash

unfoldable pub is_buy : VaultEvent → Bool
is_buy (buy e) = true
is_buy _ = false

unfoldable pub is_sell : VaultEvent → Bool
is_sell (sell e) = true
is_sell _ = false

unfoldable pub is_acquisition : VaultEvent → Bool
is_acquisition (acquired e) = true
is_acquisition _ = false

unfoldable pub is_disposal : VaultEvent → Bool
is_disposal (disposed e) = true
is_disposal _ = false

unfoldable pub is_acquisition_claim : VaultEvent → Bool
is_acquisition_claim (acquisition_claimed e) = true
is_acquisition_claim _ = false

unfoldable pub is_disposal_claim : VaultEvent → Bool
is_disposal_claim (disposal_claimed e) = true
is_disposal_claim _ = false

unfoldable pub is_claim : VaultEvent → Bool
is_claim (acquisition_claimed e) = true
is_claim (disposal_claimed e) = true
is_claim _ = false

unfoldable pub is_order : VaultEvent → Bool
is_order (buy e) = true
is_order (sell e) = true
is_order _ = false

unfoldable pub is_lifecycle : VaultEvent → Bool
unfolding is_order
is_lifecycle e = not (is_order e)

unfoldable pub claim_remainder : VaultEvent → Option ℕ
claim_remainder (acquisition_claimed e) = some e.remain
claim_remainder (disposal_claimed e) = some e.itp_remain
claim_remainder _ = none
