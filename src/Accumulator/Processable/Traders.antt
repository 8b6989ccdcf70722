-- ===== src/Accumulator/Processable/Traders.antt =====
-- Which orders are settled for which traders of an index.
use vendor.Base.{
  ℕ, ◌≡◌, refl, sym, ap, ◌∙◌, List, [], ◌∷◌, ◌++◌, Option, none, some, not, nat_beq, nat_beq_iff,
  if◌then◌else◌, arith, inl, inr, Bool-cases, filter, map, append-nil, append_assoc,
}
use vendor.Base.Map.{Map, nat_eq, lookup, Distinct}
use vendor.Accumulator.Batch.{IndividualOrderInfo, IndexState, OrderBatch}
use vendor.Accumulator.Processable.{
  SettlementOrder, ProcessableBatch, settle_orders, add_entries, split_loop, from_order_batch,
  settlement_order, unfilled,
}

-- The orders to settle for one index.
abbrev pub for_index : ℕ → List SettlementOrder → List SettlementOrder
for_index j = filter (λ o. nat_beq o.index_id j)

-- The orders to settle that the state of an index asks for.
abbrev pub buys_of : ℕ → IndexState → List SettlementOrder
buys_of j s = map (settlement_order j s.vault_address) (filter (λ o. o.is_buy) s.individual_orders)

abbrev pub sells_of : ℕ → IndexState → List SettlementOrder
sells_of j s =
    map (settlement_order j s.vault_address) (filter (λ o. not o.is_buy) s.individual_orders)

abbrev asked :
    (ℕ → IndexState → List SettlementOrder) → ℕ → Option IndexState → List SettlementOrder
asked f j none = []
asked f j (some s) = f j s

-- Those of a stored index, and none for an index that is not stored.
abbrev pub wanted :
    (ℕ → IndexState → List SettlementOrder) → ℕ → Map ℕ IndexState → List SettlementOrder
wanted f j m = asked f j (lookup j m)

filter-append :
    (j : ℕ) (xs ys : List SettlementOrder)
    → for_index j (xs ++ ys) ≡ for_index j xs ++ for_index j ys
filter-append j [] ys = refl
filter-append j (x ∷ xs) ys = ground (arith, filter-append j xs ys)

settle_orders-appends :
    (k : ℕ) (vault : Option ℕ) (infos : List IndividualOrderInfo) (p : ProcessableBatch)
    → let p' = settle_orders k vault infos p in
      (p'.settlement_buy_orders
        ≡ p.settlement_buy_orders ++ map (settlement_order k vault) (filter (λ o. o.is_buy) infos))
      × (p'.settlement_sell_orders
          ≡ p.settlement_sell_orders
            ++ map (settlement_order k vault) (filter (λ o. not o.is_buy) infos))
unfolding settle_orders
settle_orders-appends k vault [] p =
    (sym (append-nil p.settlement_buy_orders), sym (append-nil p.settlement_sell_orders))
settle_orders-appends k vault (info ∷ infos) p =
    let order = settlement_order k vault info in
    elim (Bool-cases info.is_buy) [
      | inl buys ↦
          let p1 = record p { settlement_buy_orders = p.settlement_buy_orders ++ order ∷ [] } in
          let (a, b) = settle_orders-appends k vault infos p1 in
          rw buys (a ∙ append_assoc p.settlement_buy_orders (order ∷ []) _, b)
      | inr sells ↦
          let p1 = record p { settlement_sell_orders = p.settlement_sell_orders ++ order ∷ [] } in
          let (a, b) = settle_orders-appends k vault infos p1 in
          rw sells (a, b ∙ append_assoc p.settlement_sell_orders (order ∷ []) _)
    ]

-- All of the orders of one index are for that index.
for_index-own :
    (k j : ℕ) (vault : Option ℕ) (infos : List IndividualOrderInfo)
    → for_index j (map (settlement_order k vault) infos)
      ≡ (if nat_beq k j then map (settlement_order k vault) infos else [])
for_index-own k j vault [] = ground arith
for_index-own k j vault (info ∷ infos) = ground (arith, for_index-own k j vault infos)

-- One more index at the front of the map.
wanted-front :
    (f : ℕ → IndexState → List SettlementOrder) (k j : ℕ) (s : IndexState) (m : Map ℕ IndexState)
    → lookup k m ≡ none
    → wanted f j ((k, s) ∷ m) ≡ (if nat_beq k j then f k s else []) ++ wanted f j m
wanted-front f k j s m absent = elim (Bool-cases (nat_beq k j)) [
  | inl here ↦
      let same : k ≡ j = (nat_beq_iff k j).0 here in
      let gone : lookup j m ≡ none = rw same at absent in
      let nothing : wanted f j m ≡ [] = ap (asked f j) gone in
      let front : wanted f j ((k, s) ∷ m) ≡ f j s =
        ap (λ t. asked f j (if t then some s else lookup j m)) here in
      front
      ∙ ap (λ i. f i s) (sym same)
      ∙ sym (append-nil (f k s))
      ∙ ap (◌++◌ (f k s)) (sym nothing)
      ∙ ap (λ t. (if t then f k s else []) ++ wanted f j m) (sym here)
  | inr other ↦
      ap (λ t. asked f j (if t then some s else lookup j m)) other
      ∙ ap (λ t. (if t then f k s else []) ++ wanted f j m) (sym other)
]

one_index :
    (j : ℕ) (old new own rest : List SettlementOrder)
    → new ≡ old ++ own
    → for_index j new ++ rest ≡ for_index j old ++ (for_index j own ++ rest)
one_index j old new own rest e =
    rw (e, filter-append j old own) (append_assoc (for_index j old) (for_index j own) rest)

split_loop-for_index :
    (j : ℕ) (m : Map ℕ IndexState) (p : ProcessableBatch)
    → Distinct m
    → let p' = split_loop m p in
      (for_index j p'.settlement_buy_orders
        ≡ for_index j p.settlement_buy_orders ++ wanted buys_of j m)
      × (for_index j p'.settlement_sell_orders
          ≡ for_index j p.settlement_sell_orders ++ wanted sells_of j m)
unfolding split_loop add_entries
split_loop-for_index j [] p d = (
  sym (append-nil (for_index j p.settlement_buy_orders)),
  sym (append-nil (for_index j p.settlement_sell_orders)),
)
split_loop-for_index j ((k, s) ∷ m) p d =
    let p1 = settle_orders k s.vault_address s.individual_orders (add_entries k s p) in
    let (buys, sells) =
      settle_orders-appends k s.vault_address s.individual_orders (add_entries k s p) in
    let (a, b) = split_loop-for_index j m p1 d.1 in
    (
      a
          ∙ one_index j p.settlement_buy_orders p1.settlement_buy_orders (buys_of k s)
              (wanted buys_of j m) buys
          ∙ ap (λ own. for_index j p.settlement_buy_orders ++ (own ++ wanted buys_of j m))
              (for_index-own k j s.vault_address (filter (λ o. o.is_buy) s.individual_orders))
          ∙ ap (◌++◌ (for_index j p.settlement_buy_orders))
              (sym (wanted-front buys_of k j s m d.0)),
      b
          ∙ one_index j p.settlement_sell_orders p1.settlement_sell_orders (sells_of k s)
              (wanted sells_of j m) sells
          ∙ ap (λ own. for_index j p.settlement_sell_orders ++ (own ++ wanted sells_of j m))
              (for_index-own k j s.vault_address (filter (λ o. not o.is_buy) s.individual_orders))
          ∙ ap (◌++◌ (for_index j p.settlement_sell_orders))
              (sym (wanted-front sells_of k j s m d.0)),
    )

-- Where no index is stored twice, the orders to settle for an index are its individual buys and
-- its individual sells, each in the order in which they came, with their traders and amounts and
-- with the vault address of the index; an index that the batch does not hold has none.
pub from_order_batch-for_index :
    (now j : ℕ) (b : OrderBatch)
    → Distinct b.indices
    → let p = from_order_batch now b in
      (for_index j p.settlement_buy_orders ≡ wanted buys_of j b.indices)
      × (for_index j p.settlement_sell_orders ≡ wanted sells_of j b.indices)
unfolding from_order_batch
from_order_batch-for_index now j b d = split_loop-for_index j b.indices (unfilled now b) d
