-- ===== src/Accumulator/Processable/Ids.antt =====
-- `ProcessableBatch` (bin/keeper/src/accumulator/processable.rs): the ids of the batch.
use vendor.Base.{
  ℕ, ◌≤◌, ◌≡◌, refl, sym, ap, ◌∙◌, List, [], ◌∷◌, ◌++◌, Option, Bool, nat_beq, arith, inl, inr,
  Bool-cases, count, map, append-nil, append_assoc,
}
use vendor.Base.Map.{Map, nat_eq}
use vendor.Accumulator.Batch.{IndividualOrderInfo, IndexState, OrderBatch}
use vendor.Accumulator.Processable.{
  ProcessableBatch, settle_orders, add_entries, split_loop, from_order_batch, sorted_insert, sort,
  unfilled,
}

-- Each id is at most the next one.
abbrev pub IsSorted : List ℕ → Type 0
IsSorted [] = Unit
IsSorted (n ∷ []) = Unit
IsSorted (n ∷ k ∷ ks) = (n ≤ k) × IsSorted (k ∷ ks)

sorted_insert-IsSorted : (n : ℕ) (ks : List ℕ) → IsSorted ks → IsSorted (sorted_insert n ks)
unfolding sorted_insert
sorted_insert-IsSorted n [] s = tt
sorted_insert-IsSorted n (k ∷ []) s = ground arith
sorted_insert-IsSorted n (k ∷ j ∷ ks) s = ground (arith, sorted_insert-IsSorted n (j ∷ ks) s.1)

pub sort-IsSorted : (ns : List ℕ) → IsSorted (sort ns)
unfolding sort
sort-IsSorted [] = tt
sort-IsSorted (n ∷ ns) = sorted_insert-IsSorted n (sort ns) (sort-IsSorted ns)

count-sorted_insert :
    (f : ℕ → Bool) (n : ℕ) (ks : List ℕ) → count f (sorted_insert n ks) ≡ count f (n ∷ ks)
unfolding sorted_insert
count-sorted_insert f n [] = refl
count-sorted_insert f n (k ∷ ks) = ground (arith, count-sorted_insert f n ks)

pub count-sort : (f : ℕ → Bool) (ns : List ℕ) → count f (sort ns) ≡ count f ns
unfolding sort
count-sort f [] = refl
count-sort f (n ∷ ns) = ground (arith, count-sorted_insert f n (sort ns), count-sort f ns)

settle_orders-ids :
    (index_id : ℕ) (vault : Option ℕ) (infos : List IndividualOrderInfo) (p : ProcessableBatch)
    → (settle_orders index_id vault infos p).unique_index_ids ≡ p.unique_index_ids
unfolding settle_orders
settle_orders-ids index_id vault [] p = refl
settle_orders-ids index_id vault (info ∷ infos) p =
    settle_orders-ids index_id vault infos _
    ∙ (elim (Bool-cases info.is_buy) [ inl h ↦ rw h refl | inr h ↦ rw h refl ])

abbrev pub ids_of : OrderBatch → List ℕ
ids_of b = map (λ e. e.0) b.indices

split_loop-ids :
    (m : Map ℕ IndexState) (p : ProcessableBatch)
    → (split_loop m p).unique_index_ids ≡ p.unique_index_ids ++ map (λ e. e.0) m
unfolding split_loop add_entries
split_loop-ids [] p = sym (append-nil p.unique_index_ids)
split_loop-ids ((index_id, s) ∷ m) p =
    split_loop-ids m _
    ∙ ap (λ ids. ids ++ map (λ e. e.0) m)
        (settle_orders-ids index_id s.vault_address s.individual_orders (add_entries index_id s p))
    ∙ append_assoc p.unique_index_ids (index_id ∷ []) _

-- The ids are in order, and each id is listed as often as it is a key of the batch.
pub from_order_batch-ids :
    (now j : ℕ) (b : OrderBatch)
    → let ids = (from_order_batch now b).unique_index_ids in
      IsSorted ids × (count (nat_beq j) ids ≡ count (nat_beq j) (ids_of b))
unfolding from_order_batch
from_order_batch-ids now j b =
    let listed = split_loop-ids b.indices (unfilled now b) in
    (
      sort-IsSorted (split_loop b.indices (unfilled now b)).unique_index_ids,
      count-sort (nat_beq j) _ ∙ ap (count (nat_beq j)) listed,
    )
