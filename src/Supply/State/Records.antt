-- ===== src/Supply/State/Records.antt =====
-- Recording trades by symbol and by asset id, and when a submission is due.
use Prim.Native.String.{String}
use vendor.Base.{
  ℕ, ◌<◌, ◌≡◌, ◌⊎◌, inl, inr, refl, sym, ap, ◌∙◌, [], ◌∷◌, ◌++◌, ◌≢◌, nat_beq, nat_beq_iff, All,
  Bool-cases, Option, none, some, Bool, true, false, if◌then◌else◌, arith, Option-cases, filter,
  map, Result, ok, err,
}
use vendor.Base.Map.{
  Map, ◌==◌, beq_refl, string_eq, lookup, insert, lookup-insert, Distinct, insert-Distinct,
}
use vendor.Uint256.{Uint256}
use vendor.Amount.{IsAmount}
use vendor.Supply.Asset.{
  AssetSupply, IsValid, SupplyError, not_found, not_initialized, Method, add_long, add_short,
  has_changed,
}
use vendor.Supply.Asset.Netting.{
  bought_changed, add_long-IsValid, add_short-IsValid, add_long-symbol, add_short-symbol,
}
use vendor.Supply.State.{
  SupplyState, after_method, with_supply, find_by_id, record_buy, record_sell, add_long_by_id,
  needs_submission, mark_submitted, get_changed_assets, is_empty,
}

-- Every supply is stored under its own symbol.
abbrev pub Keyed : Map String AssetSupply → Type 0
Keyed [] = Unit
Keyed ((symbol, s) ∷ m) = (s.symbol ≡ symbol) × Keyed m

insert-Keyed :
    (symbol : String) (s : AssetSupply) (m : Map String AssetSupply)
    → s.symbol ≡ symbol
    → Keyed m
    → Keyed (insert symbol s m)
insert-Keyed symbol s [] e k = (e, tt)
insert-Keyed symbol s ((j, t) ∷ m) e k =
    ground (arith, string_eq.same_iff j symbol, insert-Keyed symbol s m e k.1)

-- An asset found by its id is the one stored under its symbol.
pub find_by_id-lookup :
    (asset_id : ℕ) (m : Map String AssetSupply) {s : AssetSupply}
    → Keyed m
    → Distinct m
    → find_by_id asset_id m ≡ some s
    → (lookup s.symbol m ≡ some s) × (s.asset_id ≡ asset_id)
unfolding find_by_id
find_by_id-lookup asset_id [] k d e = cc
find_by_id-lookup asset_id ((j, t) ∷ m) {s = s} k d e =
    ground (arith, string_eq.same_iff j s.symbol, find_by_id-lookup asset_id m {s = s} k.1 d.1)

-- No asset of the map has the id.
abbrev pub LacksId : ℕ → Map String AssetSupply → Type 0
LacksId asset_id m = All (λ e. e.1.asset_id ≢ asset_id) m

-- The asset has the id and is stored under its own symbol; no asset in front of it has the id.
abbrev pub IsFirst : ℕ → Map String AssetSupply → AssetSupply → Type 0
IsFirst asset_id m s =
    (s.asset_id ≡ asset_id)
    × (front : Map String AssetSupply) × (back : Map String AssetSupply) × (m
        ≡ front ++ (s.symbol, s) ∷ back)
    × LacksId asset_id front

pub find_by_id-cases :
    (asset_id : ℕ) (m : Map String AssetSupply)
    → Keyed m
    → ((find_by_id asset_id m ≡ none) × LacksId asset_id m)
      ⊎ ((s : AssetSupply) × (find_by_id asset_id m ≡ some s) × IsFirst asset_id m s)
unfolding find_by_id
find_by_id-cases asset_id [] k = inl (refl, tt)
find_by_id-cases asset_id ((j, t) ∷ m) k = elim (Bool-cases (nat_beq t.asset_id asset_id)) [
  | inl here ↦ inr (
    t,
    rw here refl,
    ((nat_beq_iff t.asset_id asset_id).0 here, [], m, ap (λ symbol. (symbol, t) ∷ m) (sym k.0), tt),
  )
  | inr other ↦
      let differs : t.asset_id ≢ asset_id =
        λ e. ground (arith, other, (nat_beq_iff t.asset_id asset_id).1 e) in
      elim (find_by_id-cases asset_id m k.1) [
        | inl (e, lacks) ↦ inl (rw other e, (differs, lacks))
        | inr (s, e, (id, front, back, split, lacks)) ↦ inr (
          s,
          rw other e,
          (id, (j, t) ∷ front, back, ap (λ l. (j, t) ∷ l) split, (differs, lacks)),
        )
      ]
]

-- The state is coherent: one entry to a symbol, under its own name, with amounts in range.
abbrev pub AllValid : Map String AssetSupply → Type 0
AllValid [] = Unit
AllValid ((symbol, s) ∷ m) = IsValid s × AllValid m

pub record Coherent (st : SupplyState) : Type 0 where
  pub keyed : Keyed st.supplies
  pub distinct : Distinct st.supplies
  pub valid : AllValid st.supplies

insert-AllValid :
    (symbol : String) (s : AssetSupply) (m : Map String AssetSupply)
    → IsValid s
    → AllValid m
    → AllValid (insert symbol s m)
insert-AllValid symbol s [] v all = (v, tt)
insert-AllValid symbol s ((j, t) ∷ m) v all =
    ground (arith, string_eq.same_iff j symbol, insert-AllValid symbol s m v all.1)

lookup-valid :
    (symbol : String) (m : Map String AssetSupply) {s : AssetSupply}
    → Keyed m
    → AllValid m
    → lookup symbol m ≡ some s
    → IsValid s × (s.symbol ≡ symbol)
lookup-valid symbol [] k all e = cc
lookup-valid symbol ((j, t) ∷ m) {s = s} k all e =
    ground (arith, string_eq.same_iff j symbol, lookup-valid symbol m {s = s} k.1 all.1)

-- A method that keeps the name and the ranges of a supply keeps the state coherent.
after_method-Coherent :
    {A : Type 0} (symbol : String) (st : SupplyState) (r : Method A)
    → Coherent st
    → IsValid r.1
    → r.1.symbol ≡ symbol
    → Coherent (after_method symbol st r).1
unfolding after_method
after_method-Coherent symbol st (ok a, s) c v e = record {
  keyed = insert-Keyed symbol s st.supplies e c.keyed;
  distinct = insert-Distinct symbol s st.supplies c.distinct;
  valid = insert-AllValid symbol s st.supplies v c.valid;
}
after_method-Coherent symbol st (err x, s) c v e = record {
  keyed = insert-Keyed symbol s st.supplies e c.keyed;
  distinct = insert-Distinct symbol s st.supplies c.distinct;
  valid = insert-AllValid symbol s st.supplies v c.valid;
}

module _ ⦃u : Uint256⦄ (now quantity : ℕ) (fit : IsAmount quantity) where
  -- A buy of a known symbol, or of a symbol that is not known.
  record_buy_cases :
      (symbol : String) (st : SupplyState)
      → ((lookup symbol st.supplies ≡ none)
          × (record_buy now symbol quantity st ≡ (err (not_initialized symbol), st)))
        ⊎ ((s : AssetSupply) × (lookup symbol st.supplies ≡ some s)
            × (record_buy now symbol quantity st
                ≡ after_method symbol st (add_long now quantity s)))
  unfolding record_buy with_supply
  record_buy_cases symbol st = elim (Option-cases (lookup symbol st.supplies)) [
    | inl missing ↦ inl (missing, rw (missing, with_supply))
    | inr (s, e) ↦ inr (s, e, rw (e, with_supply))
  ]

  record_sell_cases :
      (symbol : String) (st : SupplyState)
      → ((lookup symbol st.supplies ≡ none)
          × (record_sell now symbol quantity st ≡ (err (not_initialized symbol), st)))
        ⊎ ((s : AssetSupply) × (lookup symbol st.supplies ≡ some s)
            × (record_sell now symbol quantity st
                ≡ after_method symbol st (add_short now quantity s)))
  unfolding record_sell with_supply
  record_sell_cases symbol st = elim (Option-cases (lookup symbol st.supplies)) [
    | inl missing ↦ inl (missing, rw (missing, with_supply))
    | inr (s, e) ↦ inr (s, e, rw (e, with_supply))
  ]

  -- A buy keeps the state coherent, whether it succeeds, overflows or names no known asset.
  pub record_buy-Coherent :
      (symbol : String) (st : SupplyState)
      → Coherent st
      → Coherent (record_buy now symbol quantity st).1
  record_buy-Coherent symbol st c = elim (record_buy_cases symbol st) [
    | inl (missing, e) ↦ rw e c
    | inr (s, found, e) ↦
        let (v, name) = lookup-valid symbol st.supplies c.keyed c.valid found in
        rw e (
          after_method-Coherent symbol st _ c (add_long-IsValid now quantity s fit v)
            (add_long-symbol now quantity s fit v ∙ name))
  ]

  pub record_sell-Coherent :
      (symbol : String) (st : SupplyState)
      → Coherent st
      → Coherent (record_sell now symbol quantity st).1
  record_sell-Coherent symbol st c = elim (record_sell_cases symbol st) [
    | inl (missing, e) ↦ rw e c
    | inr (s, found, e) ↦
        let (v, name) = lookup-valid symbol st.supplies c.keyed c.valid found in
        rw e (
          after_method-Coherent symbol st _ c (add_short-IsValid now quantity s fit v)
            (add_short-symbol now quantity s fit v ∙ name))
  ]

-- The dirty flag after a method: set where it succeeds, as it was where it fails.
abbrev pub dirty_after : {A : Type 0} → Result A SupplyError → Bool → Bool
dirty_after (ok _) before = true
dirty_after (err _) before = before

pub after_method_lem :
    {A : Type 0} (symbol j : String) (st : SupplyState) (r : Method A)
    → let (result, st') = after_method symbol st r in
      (result ≡ r.0)
      × (lookup j st'.supplies ≡ (if symbol == j then some r.1 else lookup j st.supplies))
      × (st'.dirty ≡ dirty_after r.0 st.dirty)
      × (st'.last_submission ≡ st.last_submission)
unfolding after_method
after_method_lem symbol j st (ok a, s) = (refl, lookup-insert symbol j s st.supplies, refl, refl)
after_method_lem symbol j st (err e, s) = (refl, lookup-insert symbol j s st.supplies, refl, refl)

-- In a coherent state a buy by asset id is a buy of the first asset that has this id, in the order in
-- which the map is walked: its entry becomes what `add_long` leaves, also where that fails, every
-- other entry stays, and the dirty flag is set only by success. An id that no asset has is refused,
-- and nothing changes.
pub add_long_by_id_lem :
    ⦃u : Uint256⦄ (now asset_id amount : ℕ) (j : String) (st : SupplyState)
    → Coherent st
    → let (result, st') = add_long_by_id now asset_id amount st in
      (LacksId asset_id st.supplies × (result ≡ err (not_found asset_id)) × (st' ≡ st))
      ⊎ ((s : AssetSupply) × IsFirst asset_id st.supplies s
          × (result ≡ (add_long now amount s).0)
          × (lookup j st'.supplies
              ≡ (if s.symbol == j then some (add_long now amount s).1 else lookup j st.supplies))
          × (st'.dirty ≡ dirty_after result st.dirty))
unfolding add_long_by_id record_buy with_supply
add_long_by_id_lem now asset_id amount j st c =
    elim (find_by_id-cases asset_id st.supplies c.keyed) [
      | inl (missing, lacks) ↦ rw (missing, add_long_by_id) (inl (lacks, refl, refl))
      | inr (s, found, first) ↦
          let (stored, id) = find_by_id-lookup asset_id st.supplies c.keyed c.distinct found in
          let (r, entry, dirty, _) = after_method_lem s.symbol j st (add_long now amount s) in
          rw (found, add_long_by_id)
            (rw (stored, with_supply)
              (inr (s, first, r, entry, dirty ∙ ap (λ x. dirty_after x st.dirty) (sym r))))
    ]

changed-is_empty :
    (last : Option ℕ) (symbol : String) (m : Map String AssetSupply) {s : AssetSupply}
    → lookup symbol m ≡ some s
    → has_changed last s ≡ true
    → is_empty (map (λ e. e.1.symbol) (filter (λ e. has_changed last e.1) m)) ≡ false
changed-is_empty last symbol [] found h = cc
changed-is_empty last symbol ((j, t) ∷ m) {s = s} found h =
    ground (arith, changed-is_empty last symbol m {s = s})

changed-needs_submission :
    (symbol : String) (st : SupplyState) (s : AssetSupply)
    → lookup symbol st.supplies ≡ some s
    → has_changed st.last_submission s ≡ true
    → st.dirty ≡ true
    → needs_submission st ≡ true
unfolding needs_submission get_changed_assets
changed-needs_submission symbol st s found changed dirty =
    rw (dirty, changed-is_empty st.last_submission symbol st.supplies found changed)

-- Right after a submission none is due. A buy of a known symbol that succeeds later than the
-- last submission makes one due.
pub record_buy-needs_submission :
    ⦃u : Uint256⦄ (now submitted quantity : ℕ) (symbol : String) (st : SupplyState)
    → IsAmount quantity
    → Coherent st
    → submitted < now
    → (record_buy now symbol quantity (mark_submitted submitted st)).0 ≡ ok tt
    → (needs_submission (mark_submitted submitted st) ≡ false)
      × (needs_submission (record_buy now symbol quantity (mark_submitted submitted st)).1 ≡ true)
unfolding needs_submission get_changed_assets mark_submitted
record_buy-needs_submission now submitted quantity symbol st fit c later done =
    let clean : SupplyState = record st { last_submission = some submitted; dirty = false } in
    elim (record_buy_cases now quantity fit symbol clean) [
      | inl (missing, r) ↦ absurd (cc)
      | inr (s, found, r) ↦
          let (v, _) = lookup-valid symbol st.supplies c.keyed c.valid found in
          let (result, entry, dirty, last) =
            after_method_lem symbol symbol clean (add_long now quantity s) in
          let bought : (add_long now quantity s).0 ≡ ok tt =
            sym result ∙ ap (λ x. x.0) (sym r) ∙ done in
          let stored =
            entry
            ∙ ap (λ b. if b then some (add_long now quantity s).1 else lookup symbol st.supplies)
                (beq_refl symbol) in
          (
            refl,
            rw r (
                changed-needs_submission symbol _ (add_long now quantity s).1 stored
                  (rw last (bought_changed now submitted quantity s fit v later bought))
                  (dirty ∙ rw bought)),
          )
    ]
