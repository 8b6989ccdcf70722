-- ===== src/Supply/State/ById.antt =====
-- The methods that find an asset by its id.
use Prim.Native.String.{String}
use vendor.Base.{
  ℕ, ◌≡◌, ◌⊎◌, inl, inr, refl, sym, ap, subst, ◌∙◌, none, some, if◌then◌else◌, Option-cases, Result,
  err,
}
use vendor.Base.Map.{◌==◌, string_eq, lookup}
use vendor.Uint256.{Uint256}
use vendor.Supply.Asset.{
  AssetSupply, SupplyError, not_found, Method, add_short, add_simulated_long, add_simulated_short,
  realize_simulated_long, realize_simulated_short,
}
use vendor.Supply.State.{
  SupplyState, after_method, with_supply, find_by_id, record_sell, by_id, add_short_by_id,
  add_simulated_long_by_id, add_simulated_short_by_id, realize_simulated_long_by_id,
  realize_simulated_short_by_id,
}
use vendor.Supply.State.Records.{Coherent, find_by_id-lookup, after_method_lem, dirty_after}

-- A call by id that leaves `out` is a refusal that changes nothing, or the method on the asset
-- with that id.
abbrev pub IsCallOn :
    {A : Type 0}
    → ℕ
    → String
    → (AssetSupply → Method A)
    → SupplyState
    → Result A SupplyError × SupplyState
    → Type 0
IsCallOn asset_id j method st (result, st') =
    ((find_by_id asset_id st.supplies ≡ none) × (result ≡ err (not_found asset_id)) × (st' ≡ st))
    ⊎ ((s : AssetSupply) × (find_by_id asset_id st.supplies ≡ some s)
        × (result ≡ (method s).0)
        × (lookup j st'.supplies
            ≡ (if s.symbol == j then some (method s).1 else lookup j st.supplies))
        × (st'.dirty ≡ dirty_after result st.dirty))

-- The end of every call: the state after a method on a stored asset.
stored_call :
    {A : Type 0} (asset_id : ℕ) (j : String) (method : AssetSupply → Method A) (st : SupplyState)
    (s : AssetSupply)
    → find_by_id asset_id st.supplies ≡ some s
    → IsCallOn asset_id j method st (after_method s.symbol st (method s))
stored_call asset_id j method st s found =
    let (r, entry, dirty, _) = after_method_lem s.symbol j st (method s) in
    inr (s, found, r, entry, dirty ∙ ap (λ x. dirty_after x st.dirty) (sym r))

pub by_id-IsCallOn :
    ⦃u : Uint256⦄ {A : Type 0} (asset_id : ℕ) (j : String) (method : AssetSupply → Method A)
    (st : SupplyState)
    → Coherent st
    → IsCallOn asset_id j method st (by_id asset_id method st)
unfolding by_id with_supply
by_id-IsCallOn asset_id j method st c = elim (Option-cases (find_by_id asset_id st.supplies)) [
  | inl missing ↦
      let e : by_id asset_id method st ≡ (err (not_found asset_id), st) =
        rw (missing, by_id) refl in
      subst (IsCallOn asset_id j method st) (sym e) (inl (missing, refl, refl))
  | inr (s, found) ↦
      let (stored, id) = find_by_id-lookup asset_id st.supplies c.keyed c.distinct found in
      let e : by_id asset_id method st ≡ after_method s.symbol st (method s) =
        rw (found, by_id) (rw (stored, with_supply) refl) in
      subst (IsCallOn asset_id j method st) (sym e) (stored_call asset_id j method st s found)
]

module _ ⦃u : Uint256⦄ (now asset_id amount : ℕ) (j : String) (st : SupplyState)
    (c : Coherent st) where
  -- In a coherent state a sell by asset id is a sell of the asset that is found by it, or is
  -- refused and changes nothing where no asset has it.
  pub add_short_by_id-IsCallOn :
      IsCallOn asset_id j (add_short now amount) st (add_short_by_id now asset_id amount st)
  unfolding add_short_by_id record_sell with_supply
  add_short_by_id-IsCallOn = elim (Option-cases (find_by_id asset_id st.supplies)) [
    | inl missing ↦
        let e : add_short_by_id now asset_id amount st ≡ (err (not_found asset_id), st) =
          rw (missing, add_short_by_id) refl in
        subst (IsCallOn asset_id j (add_short now amount) st) (sym e) (inl (missing, refl, refl))
    | inr (s, found) ↦
        let (stored, id) = find_by_id-lookup asset_id st.supplies c.keyed c.distinct found in
        let e : add_short_by_id now asset_id amount st
            ≡ after_method s.symbol st (add_short now amount s) =
          rw (found, add_short_by_id) (rw (stored, with_supply) refl) in
        subst (IsCallOn asset_id j (add_short now amount) st) (sym e)
          (stored_call asset_id j (add_short now amount) st s found)
  ]

  -- In a coherent state each of the four methods on simulated positions, called with an asset id,
  -- is the method of the asset that is found by it: its entry becomes what the method leaves,
  -- also where that fails, every other entry stays, and the dirty flag is set only by success. An
  -- id that no asset has is refused, and nothing changes.
  pub simulated_by_id-IsCallOn :
      IsCallOn asset_id j
        (add_simulated_long now amount)
        st
        (add_simulated_long_by_id now asset_id amount st)
      × IsCallOn asset_id j
          (add_simulated_short now amount)
          st
          (add_simulated_short_by_id now asset_id amount st)
      × IsCallOn asset_id j
          (realize_simulated_long now amount)
          st
          (realize_simulated_long_by_id now asset_id amount st)
      × IsCallOn asset_id j
          (realize_simulated_short now amount)
          st
          (realize_simulated_short_by_id now asset_id amount st)
  unfolding add_simulated_long_by_id add_simulated_short_by_id realize_simulated_long_by_id
      realize_simulated_short_by_id
  simulated_by_id-IsCallOn = (
    by_id-IsCallOn asset_id j (add_simulated_long now amount) st c,
    by_id-IsCallOn asset_id j (add_simulated_short now amount) st c,
    by_id-IsCallOn asset_id j (realize_simulated_long now amount) st c,
    by_id-IsCallOn asset_id j (realize_simulated_short now amount) st c,
  )
