-- ===== src/Index/AssetIds.antt =====
-- The list of all assets of the mapped indices.
use vendor.Base.{
  ℕ, ◌≡◌, refl, sym, ap, subst, ◌∙◌, List, [], ◌∷◌, Bool, false, ◌||◌, nat_beq, nat_beq_iff,
  contains, contains-append, contains-count, IsAscending, inl, inr, Bool-cases, arith, ltb,
}
use vendor.Accumulator.Processable.{sort}
use vendor.Accumulator.Processable.Ids.{IsSorted, sort-IsSorted, count-sort}
use vendor.Index.{Indices, config_assets, listed_assets, dedup_after, dedup, get_all_asset_ids}

dedup_after-IsAscending :
    (n : ℕ) (ks : List ℕ) → IsSorted (n ∷ ks) → IsAscending (n ∷ dedup_after n ks)
unfolding dedup_after
dedup_after-IsAscending n [] s = tt
dedup_after-IsAscending n (k ∷ ks) s = elim (Bool-cases (nat_beq k n)) [
  | inl same ↦
      let e : k ≡ n = (nat_beq_iff k n).0 same in
      rw (same, dedup_after, e)
        (dedup_after-IsAscending n ks (subst (λ j. IsSorted (j ∷ ks)) e s.1))
  | inr other ↦ rw (other, dedup_after) (ground arith, dedup_after-IsAscending k ks s.1)
]

contains-dedup_after :
    (v n : ℕ) (ks : List ℕ) → contains v (n ∷ dedup_after n ks) ≡ contains v (n ∷ ks)
unfolding dedup_after
contains-dedup_after v n [] = refl
contains-dedup_after v n (k ∷ ks) = ground (arith, contains-dedup_after v k ks, nat_beq_iff k n)

dedup-IsAscending : (ns : List ℕ) → IsSorted ns → IsAscending (dedup ns)
unfolding dedup
dedup-IsAscending [] s = tt
dedup-IsAscending (n ∷ ns) s = dedup_after-IsAscending n ns s

contains-dedup : (v : ℕ) (ns : List ℕ) → contains v (dedup ns) ≡ contains v ns
unfolding dedup
contains-dedup v [] = refl
contains-dedup v (n ∷ ns) = contains-dedup_after v n ns

-- The asset is listed by one of the indices.
abbrev pub is_listed : {Weight : Type 0} → ℕ → Indices Weight → Bool
is_listed a [] = false
is_listed a ((_, config) ∷ rest) = contains a (config_assets config) || is_listed a rest

contains-listed :
    {Weight : Type 0} (a : ℕ) (indices : Indices Weight)
    → contains a (listed_assets indices) ≡ is_listed a indices
unfolding listed_assets
contains-listed a [] = refl
contains-listed a ((_, config) ∷ rest) =
    contains-append a (config_assets config) (listed_assets rest)
    ∙ ap (λ b. contains a (config_assets config) || b) (contains-listed a rest)

-- All asset ids are the assets of the indices and no others, in ascending order and so without
-- repetition, whatever the order in which the map is walked.
pub get_all_asset_ids-IsAscending :
    {Weight : Type 0} (indices : Indices Weight)
    → IsAscending (get_all_asset_ids indices)
      × ((a : ℕ) → contains a (get_all_asset_ids indices) ≡ is_listed a indices)
unfolding get_all_asset_ids
get_all_asset_ids-IsAscending indices =
    let listed = listed_assets indices in
    (
      dedup-IsAscending (sort listed) (sort-IsSorted listed),
      λ a.
          contains-dedup a (sort listed)
          ∙ contains-count a (sort listed)
          ∙ ap (ltb 0) (count-sort (λ x. nat_beq x a) listed)
          ∙ sym (contains-count a listed)
          ∙ contains-listed a indices,
    )
