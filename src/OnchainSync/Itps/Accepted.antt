-- ===== src/OnchainSync/Itps/Accepted.antt =====
-- Which of the discovered ITPs are accepted.
use vendor.Base.{
  All-push, ℕ, ◌≡◌, refl, ap, ◌∙◌, inl, inr, List, [], ◌∷◌, ◌++◌, Option, none, some, true, not,
  filter, All, ok, is_empty_list, contains, arith, Bool-cases, Result-cases, Option-cases,
  append-nil, append_assoc,
}
use vendor.EventCache.Indexer.{EventLog}
use vendor.OnchainSync.{ItpInfo, CompositionSnapshot, Castle}
use vendor.OnchainSync.Itps.{
  get_itp_info, discover_itp, discover_loop, discover_all_itps, validate_itp_assets,
  has_accepted_collateral, is_accepted, accept_loop, discover_accepted_itps,
}

-- A list is dealt out in two, in its order: to the left what satisfies `P`, to the right the rest.
pub data Split {A : Type 0} (P : A → Type 0) : List A → List A → List A → Type 0 where
  done : Split P [] [] []
  left : {x : A} {xs ls rs : List A} → P x → Split P xs ls rs → Split P (x ∷ xs) (x ∷ ls) rs
  right : {x : A} {xs ls rs : List A} → ¬ P x → Split P xs ls rs → Split P (x ∷ xs) ls (x ∷ rs)

-- The composition is there, and the vendor knows all assets of it.
abbrev pub Supports : (known : List ℕ) → ItpInfo → Type 0
Supports known itp =
    (c : CompositionSnapshot) × (itp.composition ≡ some c)
    × All (λ id. contains id known ≡ true) c.asset_ids

abbrev HasNoCollateral : ItpInfo → Type 0
HasNoCollateral itp = itp.collateral_address ≡ none

module _ (known : List ℕ) where
  none_unknown :
      (ids : List ℕ)
      → is_empty_list (filter (λ id. not (contains id known)) ids) ≡ true
      → All (λ id. contains id known ≡ true) ids
  none_unknown [] h = tt
  none_unknown (id ∷ ids) h = ground (arith, none_unknown ids)

  none_unknown-of_known :
      (ids : List ℕ)
      → All (λ id. contains id known ≡ true) ids
      → is_empty_list (filter (λ id. not (contains id known)) ids) ≡ true
  none_unknown-of_known [] h = refl
  none_unknown-of_known (id ∷ ids) h = rw h.0 (none_unknown-of_known ids h.1)

  module _ (collaterals : Option (List ℕ)) where
    collateral_unknown :
        (itp : ItpInfo)
        → HasNoCollateral itp
        → has_accepted_collateral collaterals itp.collateral_address ≡ true
    unfolding has_accepted_collateral
    collateral_unknown itp h = elim (Option-cases collaterals) [
      | inl e ↦ rw (e, has_accepted_collateral)
      | inr (cs, e) ↦ rw (e, h, has_accepted_collateral)
    ]

    is_accepted-Supports :
        (itp : ItpInfo)
        → HasNoCollateral itp
        → is_accepted known collaterals itp ≡ true
        → Supports known itp
    unfolding is_accepted validate_itp_assets
    is_accepted-Supports itp h yes' = elim (Option-cases itp.composition) [
      | inl e ↦ cc (rw (e, is_accepted) at yes')
      | inr (c, e) ↦ (c, e, none_unknown c.asset_ids (ground (arith, e, yes')))
    ]

    Supports-is_accepted :
        (itp : ItpInfo)
        → HasNoCollateral itp
        → Supports known itp
        → is_accepted known collaterals itp ≡ true
    unfolding is_accepted validate_itp_assets
    Supports-is_accepted itp h (c, e, all) =
        rw (e, is_accepted, none_unknown-of_known c.asset_ids all) (collateral_unknown itp h)

    accept_loop-Split :
        (itps accepted rejected : List ItpInfo)
        → All HasNoCollateral itps
        → (ls rs : List ItpInfo) × (accept_loop known collaterals itps (accepted, rejected)
            ≡ (accepted ++ ls, rejected ++ rs))
          × Split (Supports known) itps ls rs
    unfolding accept_loop
    accept_loop-Split [] accepted rejected h =
        ([], [], cc (append-nil accepted, append-nil rejected), done)
    accept_loop-Split (itp ∷ itps) accepted rejected h =
        elim (Bool-cases (is_accepted known collaterals itp)) [
          | inl yes' ↦
              let (ls, rs, e, split) = accept_loop-Split itps (accepted ++ itp ∷ []) rejected h.1 in
              (
                itp ∷ ls,
                rs,
                rw (yes', accept_loop)
                    (e ∙ ap (λ l. (l, rejected ++ rs)) (append_assoc accepted (itp ∷ []) ls)),
                left (is_accepted-Supports itp h.0 yes') split,
              )
          | inr no' ↦
              let (ls, rs, e, split) = accept_loop-Split itps accepted (rejected ++ itp ∷ []) h.1 in
              (
                ls,
                itp ∷ rs,
                rw (no', accept_loop)
                    (e ∙ ap (λ r. (accepted ++ ls, r)) (append_assoc rejected (itp ∷ []) rs)),
                right (λ s. cc (no', Supports-is_accepted itp h.0 s)) split,
              )
        ]

get_itp_info-HasNoCollateral :
    (castle : Castle) (index_id : ℕ) (info : ItpInfo)
    → get_itp_info castle index_id ≡ ok info
    → HasNoCollateral info
unfolding get_itp_info
get_itp_info-HasNoCollateral castle index_id info e = ground (arith, e)

discover_itp-HasNoCollateral :
    (castle : Castle) (log : EventLog ℕ) (itps : List ItpInfo)
    → All HasNoCollateral itps
    → All HasNoCollateral (discover_itp castle log itps)
unfolding discover_itp
discover_itp-HasNoCollateral castle log itps h = elim (Result-cases log.decoded) [
  | inr (e, failed) ↦ rw (failed, discover_itp) h
  | inl (id, found) ↦ elim (Result-cases (get_itp_info castle id)) [
    | inr (e, failed) ↦ rw (found, discover_itp, failed) h
    | inl (info, got) ↦
        rw (found, discover_itp, got)
          (All-push HasNoCollateral itps _ h (get_itp_info-HasNoCollateral castle id info got))
  ]
]

discover_loop-HasNoCollateral :
    (castle : Castle) (logs : List (EventLog ℕ)) (itps : List ItpInfo)
    → All HasNoCollateral itps
    → All HasNoCollateral (discover_loop castle logs itps)
unfolding discover_loop
discover_loop-HasNoCollateral castle [] itps h = h
discover_loop-HasNoCollateral castle (log ∷ logs) itps h =
    discover_loop-HasNoCollateral castle logs _ (discover_itp-HasNoCollateral castle log itps h)

discover_all_itps-HasNoCollateral :
    (castle : Castle) (itps : List ItpInfo)
    → discover_all_itps castle ≡ ok itps
    → All HasNoCollateral itps
unfolding discover_all_itps
discover_all_itps-HasNoCollateral castle itps e = elim (Result-cases (castle.index_created 0)) [
  | inr (error, failed) ↦ cc (rw (failed, discover_all_itps) at e)
  | inl (logs, found) ↦
      let e' : discover_loop castle logs [] ≡ itps = cc (rw (found, discover_all_itps) at e) in
      rw (← e') (discover_loop-HasNoCollateral castle logs [] tt)
]

-- Where the discovery succeeds, the discovered ITPs are dealt out in their order: accepted is each
-- one whose composition could be read and has only assets that the vendor knows, and rejected is
-- each other one. This holds for every whitelist of collaterals, so none has an effect.
pub discover_accepted_itps-Split :
    (castle : Castle) (known : List ℕ) (collaterals : Option (List ℕ)) (itps : List ItpInfo)
    → discover_all_itps castle ≡ ok itps
    → (accepted rejected : List ItpInfo) × (discover_accepted_itps castle known collaterals
        ≡ ok (accepted, rejected))
      × Split (Supports known) itps accepted rejected
unfolding discover_accepted_itps
discover_accepted_itps-Split castle known collaterals itps e =
    let (accepted, rejected, dealt, split) =
      accept_loop-Split known collaterals itps [] []
        (discover_all_itps-HasNoCollateral castle itps e) in
    (accepted, rejected, rw (e, discover_accepted_itps) (ap ok dealt), split)
