-- ===== src/Supply/Manager/Assets/Registered.antt =====
-- `SupplyManager` (bin/vendor/src/supply/manager.rs): which assets are registered, and their deltas.
use Prim.Native.String.{String}
use vendor.Base.{
  ℕ, ◌≡◌, refl, sym, ap, subst, inl, inr, List, [], ◌∷◌, Option, none, some, true, if◌then◌else◌,
  Option-cases, ok, err, All, length, filter, map, arith,
}
use vendor.Base.Map.{
  Map, string_eq, ◌==◌, lookup, insert, contains_key, lookup-insert, lookup-insert_self,
}
use text.Mathlib.TextEquality.{eq_iff}
use vendor.Uint256.{Uint256}
use vendor.Supply.Asset.{AssetSupply, has_position, new_supply}
use vendor.Supply.State.{SupplyState, init_asset}
use vendor.Supply.Manager.{
  SideDelta, demand_delta, calculate_delta, get_submission_data, submission_loop,
}
use vendor.Supply.Manager.Assets.{
  get_id, SupplyManager, Managed, not_in_mapper, initialize, get_assets_with_positions, deltas_loop,
  get_all_deltas,
}

-- Each entry of the first map is in the second, unchanged.
abbrev Kept : Map String AssetSupply → Map String AssetSupply → Type 0
Kept m m' = (j : String) (s : AssetSupply) → lookup j m ≡ some s → lookup j m' ≡ some s

init_asset-Kept :
    (now : ℕ) (symbol : String) (asset_id : ℕ) (st : SupplyState)
    → Kept st.supplies (init_asset now symbol asset_id st).supplies
unfolding init_asset
init_asset-Kept now symbol asset_id st j s e =
    ground
      (arith, lookup-insert symbol j (new_supply now symbol asset_id) st.supplies, eq_iff symbol j)

init_asset-contains_key :
    (now : ℕ) (symbol : String) (asset_id : ℕ) (st : SupplyState)
    → contains_key symbol (init_asset now symbol asset_id st).supplies ≡ true
unfolding init_asset
init_asset-contains_key now symbol asset_id st =
    ground (arith, lookup-insert_self symbol (new_supply now symbol asset_id) st.supplies)

Kept-contains_key :
    (m m' : Map String AssetSupply) (j : String)
    → Kept m m'
    → contains_key j m ≡ true
    → contains_key j m' ≡ true
Kept-contains_key m m' j kept e = elim (Option-cases (lookup j m)) [
  | inl missing ↦ cc (e, missing)
  | inr (s, found) ↦ rw (kept j s found, contains_key) refl
]

-- Registering assets changes no asset that is registered. Where it succeeds, all of them are
-- registered; it does succeed where the mapper knows them all.
abbrev IsRegistering : List String → SupplyManager → Managed → Type 0
IsRegistering symbols m (result, m') =
    Kept m.state.supplies m'.state.supplies
    × (result ≡ ok tt → All (λ s. contains_key s m'.state.supplies ≡ true) symbols)
    × (All (λ s. contains_key s m.asset_mapper.symbol_to_id ≡ true) symbols → result ≡ ok tt)

initialize-IsRegistering :
    (clock : String → ℕ) (symbols : List String) (m : SupplyManager)
    → IsRegistering symbols m (initialize clock symbols m)
unfolding initialize get_id
initialize-IsRegistering clock [] m = (λ j s e. e, λ done. tt, λ known. refl)
initialize-IsRegistering clock (symbol ∷ symbols) m =
    elim (Option-cases (lookup symbol m.asset_mapper.symbol_to_id)) [
      | inl unknown ↦
          let stops : initialize clock (symbol ∷ symbols) m ≡ (err (not_in_mapper symbol), m) =
            rw (unknown, initialize) refl in
          subst (IsRegistering (symbol ∷ symbols) m) (sym stops)
            (λ j s e. e, λ done. cc, λ known. cc (unknown, known.0))
      | inr (id, found) ↦
          let m' : SupplyManager = record m {
            state = init_asset (clock symbol) symbol id m.state;
          } in
          let goes_on : initialize clock (symbol ∷ symbols) m ≡ initialize clock symbols m' =
            rw (found, initialize) refl in
          let (kept, done, known) = initialize-IsRegistering clock symbols m' in
          let here : contains_key symbol (initialize clock symbols m').1.state.supplies ≡ true =
            Kept-contains_key m'.state.supplies _ symbol kept
              (init_asset-contains_key (clock symbol) symbol id m.state) in
          subst (IsRegistering (symbol ∷ symbols) m) (sym goes_on) (
            λ j s e. kept j s (init_asset-Kept (clock symbol) symbol id m.state j s e),
            λ d. (here, done d),
            λ k. known k.1,
          )
    ]

module _ ⦃u : Uint256⦄ (longs shorts : Map String ℕ) (st : SupplyState) where
  -- What the loop has found for a symbol, or else what it found before.
  abbrev newer : Option SideDelta → Option SideDelta → Option SideDelta
  newer none old = old
  newer (some d) old = some d

  deltas_loop_lem :
      (j : String) (m : Map String AssetSupply) (deltas : Map String SideDelta)
      → lookup j (deltas_loop longs shorts st m deltas) ≡ (
          if contains_key j m
          then newer (demand_delta longs shorts st j) (lookup j deltas)
          else lookup j deltas)
  unfolding deltas_loop
  deltas_loop_lem j [] deltas = refl
  deltas_loop_lem j ((symbol, s) ∷ m) deltas =
      let same_delta : (symbol == j) ≡ true
          → demand_delta longs shorts st symbol ≡ demand_delta longs shorts st j =
        λ e. ap (demand_delta longs shorts st) ((eq_iff symbol j).0 e) in
      elim (Option-cases (demand_delta longs shorts st symbol)) [
        | inl none_found ↦
            rw (none_found, deltas_loop_lem j m deltas) (ground (arith, same_delta, none_found))
        | inr (d, found) ↦
            rw (found, deltas_loop_lem j m (insert symbol d deltas))
              (ground (arith, same_delta, found, lookup-insert symbol j d deltas))
      ]

module _ ⦃u : Uint256⦄ where
  -- The map of all deltas holds, for each symbol, the delta that one call gives for it.
  get_all_deltas-demand_delta :
      (longs shorts : Map String ℕ) (m : SupplyManager) (j : String)
      → lookup j (get_all_deltas longs shorts m) ≡ demand_delta longs shorts m.state j
  unfolding get_all_deltas demand_delta calculate_delta
  get_all_deltas-demand_delta longs shorts m j =
      rw (deltas_loop_lem longs shorts m.state j m.state.supplies []) (ground arith)

submission_loop-length :
    (m : Map String AssetSupply)
    → length (submission_loop m).0
      ≡ length (map (λ e. e.1.symbol) (filter (λ e. has_position e.1) m))
unfolding submission_loop
submission_loop-length [] = refl
submission_loop-length ((symbol, s) ∷ m) = ground (arith, submission_loop-length m)

-- As many assets are submitted as have a position.
get_submission_data-get_assets_with_positions :
    (m : SupplyManager)
    → length (get_submission_data m.state).0 ≡ length (get_assets_with_positions m)
unfolding get_submission_data get_assets_with_positions
get_submission_data-get_assets_with_positions m = submission_loop-length m.state.supplies
