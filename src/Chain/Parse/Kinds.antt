-- ===== src/Chain/Parse/Kinds.antt =====
-- Which event a log is parsed to.

use vendor.Base.{ℕ, ◌≡◌, ◌≢◌, ◌↔◌, refl, ap, ◌∙◌, List, [], ◌∷◌, Result, ok, err, arith}
use vendor.Chain.Events.{
  BuyOrderEvent, SellOrderEvent, AcquisitionEvent, DisposalEvent, AcquisitionClaimEvent,
  DisposalClaimEvent, VaultEvent, vault_address, tx_hash, buy, sell, acquired, disposed,
  acquisition_claimed, disposal_claimed,
}
use vendor.Chain.Parse.{Log, EventCodec, EventParseError, no_topics, parse_topic, parse_log}

-- The signature of the kind of an event.
abbrev pub signature_of : EventCodec → VaultEvent → ℕ
signature_of c (buy e) = c.buy_order_hash
signature_of c (sell e) = c.sell_order_hash
signature_of c (acquired e) = c.acquisition_hash
signature_of c (disposed e) = c.disposal_hash
signature_of c (acquisition_claimed e) = c.acquisition_claim_hash
signature_of c (disposal_claimed e) = c.disposal_claim_hash

-- The log's data decode to what the event says.
abbrev pub Carries : EventCodec → Log → VaultEvent → Type 0
Carries c log (buy e) =
    c.decode_buy_order log
    ≡ ok (record {
      keeper = e.keeper;
      trader = e.trader;
      index_id = e.index_id;
      vendor_id = e.vendor_id;
      collateral_amount = e.collateral_amount;
    })
Carries c log (sell e) =
    c.decode_sell_order log
    ≡ ok (record {
      keeper = e.keeper;
      trader = e.trader;
      index_id = e.index_id;
      vendor_id = e.vendor_id;
      itp_amount = e.itp_amount;
    })
Carries c log (acquired e) =
    c.decode_acquisition log
    ≡ ok (record {
      controller = e.controller;
      index_id = e.index_id;
      vendor_id = e.vendor_id;
      remain = e.remain;
      spent = e.spent;
      itp_minted = e.itp_minted;
    })
Carries c log (disposed e) =
    c.decode_disposal log
    ≡ ok (record {
      controller = e.controller;
      index_id = e.index_id;
      vendor_id = e.vendor_id;
      itp_remain = e.itp_remain;
      itp_burned = e.itp_burned;
      gains = e.gains;
    })
Carries c log (acquisition_claimed e) =
    c.decode_acquisition_claim log
    ≡ ok (record {
      controller = e.controller;
      index_id = e.index_id;
      vendor_id = e.vendor_id;
      remain = e.remain;
      spent = e.spent;
      itp_minted = e.itp_minted;
    })
Carries c log (disposal_claimed e) =
    c.decode_disposal_claim log
    ≡ ok (record {
      controller = e.controller;
      index_id = e.index_id;
      vendor_id = e.vendor_id;
      itp_remain = e.itp_remain;
      itp_burned = e.itp_burned;
      gains = e.gains;
    })

abbrev pub block_of : VaultEvent → ℕ
block_of (buy e) = e.block_number
block_of (sell e) = e.block_number
block_of (acquired e) = e.block_number
block_of (disposed e) = e.block_number
block_of (acquisition_claimed e) = e.block_number
block_of (disposal_claimed e) = e.block_number

abbrev pub received_at_of : VaultEvent → ℕ
received_at_of (buy e) = e.received_at
received_at_of (sell e) = e.received_at
received_at_of (acquired e) = e.received_at
received_at_of (disposed e) = e.received_at
received_at_of (acquisition_claimed e) = e.received_at
received_at_of (disposal_claimed e) = e.received_at

-- No two of the six signatures are the same.
pub record HaveDistinctHashes (c : EventCodec) : Type 0 where
  pub buy_order_ne_sell_order : c.buy_order_hash ≢ c.sell_order_hash
  pub buy_order_ne_acquisition : c.buy_order_hash ≢ c.acquisition_hash
  pub buy_order_ne_disposal : c.buy_order_hash ≢ c.disposal_hash
  pub buy_order_ne_acquisition_claim : c.buy_order_hash ≢ c.acquisition_claim_hash
  pub buy_order_ne_disposal_claim : c.buy_order_hash ≢ c.disposal_claim_hash
  pub sell_order_ne_acquisition : c.sell_order_hash ≢ c.acquisition_hash
  pub sell_order_ne_disposal : c.sell_order_hash ≢ c.disposal_hash
  pub sell_order_ne_acquisition_claim : c.sell_order_hash ≢ c.acquisition_claim_hash
  pub sell_order_ne_disposal_claim : c.sell_order_hash ≢ c.disposal_claim_hash
  pub acquisition_ne_disposal : c.acquisition_hash ≢ c.disposal_hash
  pub acquisition_ne_acquisition_claim : c.acquisition_hash ≢ c.acquisition_claim_hash
  pub acquisition_ne_disposal_claim : c.acquisition_hash ≢ c.disposal_claim_hash
  pub disposal_ne_acquisition_claim : c.disposal_hash ≢ c.acquisition_claim_hash
  pub disposal_ne_disposal_claim : c.disposal_hash ≢ c.disposal_claim_hash
  pub acquisition_claim_ne_disposal_claim : c.acquisition_claim_hash ≢ c.disposal_claim_hash

-- The log was emitted as this event, in this vault, transaction and block.
abbrev pub EmittedAs : EventCodec → Log → (vault tx block now : ℕ) → VaultEvent → Type 0
EmittedAs c log vault tx block now e =
    ((rest : List ℕ) × (log.topics ≡ signature_of c e ∷ rest))
    × Carries c log e
    × (vault_address e ≡ vault)
    × (tx_hash e ≡ tx)
    × (block_of e ≡ block)
    × (received_at_of e ≡ now)

module _ (c : EventCodec) (log : Log) (vault tx block now : ℕ) where
  parse-buy_order :
      (topic0 : ℕ) (e : BuyOrderEvent)
      → parse_topic vault tx block now c log topic0 ≡ ok (buy e)
      → (topic0 ≡ c.buy_order_hash)
        × Carries c log (buy e)
        × (e.vault_address ≡ vault)
        × (e.tx_hash ≡ tx)
        × (e.block_number ≡ block)
        × (e.received_at ≡ now)
  unfolding parse_topic
  parse-buy_order topic0 e h = ground arith

  parse-sell_order :
      (topic0 : ℕ) (e : SellOrderEvent)
      → parse_topic vault tx block now c log topic0 ≡ ok (sell e)
      → (topic0 ≡ c.sell_order_hash)
        × Carries c log (sell e)
        × (e.vault_address ≡ vault)
        × (e.tx_hash ≡ tx)
        × (e.block_number ≡ block)
        × (e.received_at ≡ now)
  unfolding parse_topic
  parse-sell_order topic0 e h = ground arith

  parse-acquisition :
      (topic0 : ℕ) (e : AcquisitionEvent)
      → parse_topic vault tx block now c log topic0 ≡ ok (acquired e)
      → (topic0 ≡ c.acquisition_hash)
        × Carries c log (acquired e)
        × (e.vault_address ≡ vault)
        × (e.tx_hash ≡ tx)
        × (e.block_number ≡ block)
        × (e.received_at ≡ now)
  unfolding parse_topic
  parse-acquisition topic0 e h = ground arith

  parse-disposal :
      (topic0 : ℕ) (e : DisposalEvent)
      → parse_topic vault tx block now c log topic0 ≡ ok (disposed e)
      → (topic0 ≡ c.disposal_hash)
        × Carries c log (disposed e)
        × (e.vault_address ≡ vault)
        × (e.tx_hash ≡ tx)
        × (e.block_number ≡ block)
        × (e.received_at ≡ now)
  unfolding parse_topic
  parse-disposal topic0 e h = ground arith

  parse-acquisition_claim :
      (topic0 : ℕ) (e : AcquisitionClaimEvent)
      → parse_topic vault tx block now c log topic0 ≡ ok (acquisition_claimed e)
      → (topic0 ≡ c.acquisition_claim_hash)
        × Carries c log (acquisition_claimed e)
        × (e.vault_address ≡ vault)
        × (e.tx_hash ≡ tx)
        × (e.block_number ≡ block)
        × (e.received_at ≡ now)
  unfolding parse_topic
  parse-acquisition_claim topic0 e h = ground arith

  parse-disposal_claim :
      (topic0 : ℕ) (e : DisposalClaimEvent)
      → parse_topic vault tx block now c log topic0 ≡ ok (disposal_claimed e)
      → (topic0 ≡ c.disposal_claim_hash)
        × Carries c log (disposal_claimed e)
        × (e.vault_address ≡ vault)
        × (e.tx_hash ≡ tx)
        × (e.block_number ≡ block)
        × (e.received_at ≡ now)
  unfolding parse_topic
  parse-disposal_claim topic0 e h = ground arith

  emitted-buy_order :
      HaveDistinctHashes c
      → (e : BuyOrderEvent) → Carries c log (buy e)
      → e.vault_address ≡ vault
      → e.tx_hash ≡ tx
      → e.block_number ≡ block
      → e.received_at ≡ now
      → parse_topic vault tx block now c log c.buy_order_hash ≡ ok (buy e)
  unfolding parse_topic
  emitted-buy_order distinct e h v t b r = ground arith

  emitted-sell_order :
      HaveDistinctHashes c
      → (e : SellOrderEvent) → Carries c log (sell e)
      → e.vault_address ≡ vault
      → e.tx_hash ≡ tx
      → e.block_number ≡ block
      → e.received_at ≡ now
      → parse_topic vault tx block now c log c.sell_order_hash ≡ ok (sell e)
  unfolding parse_topic
  emitted-sell_order distinct e h v t b r = ground arith

  emitted-acquisition :
      HaveDistinctHashes c
      → (e : AcquisitionEvent) → Carries c log (acquired e)
      → e.vault_address ≡ vault
      → e.tx_hash ≡ tx
      → e.block_number ≡ block
      → e.received_at ≡ now
      → parse_topic vault tx block now c log c.acquisition_hash ≡ ok (acquired e)
  unfolding parse_topic
  emitted-acquisition distinct e h v t b r = ground arith

  emitted-disposal :
      HaveDistinctHashes c
      → (e : DisposalEvent) → Carries c log (disposed e)
      → e.vault_address ≡ vault
      → e.tx_hash ≡ tx
      → e.block_number ≡ block
      → e.received_at ≡ now
      → parse_topic vault tx block now c log c.disposal_hash ≡ ok (disposed e)
  unfolding parse_topic
  emitted-disposal distinct e h v t b r = ground arith

  emitted-acquisition_claim :
      HaveDistinctHashes c
      → (e : AcquisitionClaimEvent) → Carries c log (acquisition_claimed e)
      → e.vault_address ≡ vault
      → e.tx_hash ≡ tx
      → e.block_number ≡ block
      → e.received_at ≡ now
      → parse_topic vault tx block now c log c.acquisition_claim_hash ≡ ok (acquisition_claimed e)
  unfolding parse_topic
  emitted-acquisition_claim distinct e h v t b r = ground arith

  emitted-disposal_claim :
      HaveDistinctHashes c
      → (e : DisposalClaimEvent) → Carries c log (disposal_claimed e)
      → e.vault_address ≡ vault
      → e.tx_hash ≡ tx
      → e.block_number ≡ block
      → e.received_at ≡ now
      → parse_topic vault tx block now c log c.disposal_claim_hash ≡ ok (disposal_claimed e)
  unfolding parse_topic
  emitted-disposal_claim distinct e h v t b r = ground arith

  parse_topic-EmittedAs :
      (topic0 : ℕ) (e : VaultEvent)
      → parse_topic vault tx block now c log topic0 ≡ ok e
      → (topic0 ≡ signature_of c e)
        × Carries c log e
        × (vault_address e ≡ vault)
        × (tx_hash e ≡ tx)
        × (block_of e ≡ block)
        × (received_at_of e ≡ now)
  unfolding vault_address tx_hash
  parse_topic-EmittedAs topic0 (buy e) h = parse-buy_order topic0 e h
  parse_topic-EmittedAs topic0 (sell e) h = parse-sell_order topic0 e h
  parse_topic-EmittedAs topic0 (acquired e) h = parse-acquisition topic0 e h
  parse_topic-EmittedAs topic0 (disposed e) h = parse-disposal topic0 e h
  parse_topic-EmittedAs topic0 (acquisition_claimed e) h = parse-acquisition_claim topic0 e h
  parse_topic-EmittedAs topic0 (disposal_claimed e) h = parse-disposal_claim topic0 e h

  EmittedAs-parse_topic :
      HaveDistinctHashes c
      → (e : VaultEvent) → Carries c log e
      → vault_address e ≡ vault
      → tx_hash e ≡ tx
      → block_of e ≡ block
      → received_at_of e ≡ now
      → parse_topic vault tx block now c log (signature_of c e) ≡ ok e
  unfolding vault_address tx_hash
  EmittedAs-parse_topic distinct (buy e) h v t b r = emitted-buy_order distinct e h v t b r
  EmittedAs-parse_topic distinct (sell e) h v t b r = emitted-sell_order distinct e h v t b r
  EmittedAs-parse_topic distinct (acquired e) h v t b r = emitted-acquisition distinct e h v t b r
  EmittedAs-parse_topic distinct (disposed e) h v t b r = emitted-disposal distinct e h v t b r
  EmittedAs-parse_topic distinct (acquisition_claimed e) h v t b r =
      emitted-acquisition_claim distinct e h v t b r
  EmittedAs-parse_topic distinct (disposal_claimed e) h v t b r =
      emitted-disposal_claim distinct e h v t b r

  from_topics :
      (topics : List ℕ) (e : VaultEvent)
      → ◌≡◌ {A = Result VaultEvent EventParseError}
          (elim topics [
            | [] ↦ err no_topics
            | topic0 ∷ _ ↦ parse_topic vault tx block now c log topic0
          ])
          (ok e)
      → (topic0 : ℕ) × ((rest : List ℕ) × (topics ≡ topic0 ∷ rest))
        × (parse_topic vault tx block now c log topic0 ≡ ok e)
  from_topics [] e h = cc
  from_topics (topic0 ∷ rest) e h = (topic0, (rest, refl), h)

  -- Where the six signatures differ, a log is parsed to an event exactly if it was emitted as that
  -- event: its first topic is the signature of the event's kind, its data decode to the event's
  -- fields, and the event carries the vault, the transaction, the block and the time of the call.
  pub parse_log-EmittedAs :
      HaveDistinctHashes c
      → (e : VaultEvent)
      → (parse_log vault tx block now c log ≡ ok e) ↔ EmittedAs c log vault tx block now e
  unfolding parse_log
  parse_log-EmittedAs distinct e = (
    λ h.
        let (topic0, (rest, topics), parsed) = from_topics log.topics e h in
        let p = parse_topic-EmittedAs topic0 e parsed in
        ((rest, topics ∙ ap (λ t. t ∷ rest) p.0), p.1, p.2, p.3, p.4, p.5),
    λ h. rw (h.0.1, parse_log) (EmittedAs-parse_topic distinct e h.1 h.2 h.3 h.4 h.5),
  )
