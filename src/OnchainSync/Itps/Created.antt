-- ===== src/OnchainSync/Itps/Created.antt =====
-- The creation blocks that the event logs give.
use Prim.Native.String.{String}
use vendor.Base.{
  ℕ, ◌≡◌, refl, ap, sym, ◌∙◌, inl, inr, List, [], ◌∷◌, Option, Bool, true, false, nat_beq,
  if◌then◌else◌, map, filter, ok, err, arith, contains, IsNodup, nat_beq_iff, Bool-cases,
  Result-cases,
}
use vendor.EventCache.Indexer.{EventLog}
use vendor.OnchainSync.{ItpInfo, Castle}
use vendor.OnchainSync.Itps.{
  set_creation_block, enrich_log, enrich_loop, enrich_with_creation_blocks,
}

-- The log can be decoded, and is the creation of the index.
abbrev pub is_creation_of : ℕ → EventLog ℕ → Bool
is_creation_of index_id log = elim log.decoded [ err e ↦ false | ok id ↦ nat_beq index_id id ]

abbrev pub block_of : EventLog ℕ → Option ℕ
block_of log = log.block_number

-- The last item, or `d` where there is none.
abbrev pub last_or : {A : Type 0} → A → List A → A
last_or d [] = d
last_or d (x ∷ xs) = last_or x xs

-- The block of the last log that creates the index; what was known where there is none.
abbrev pub created_block : List (EventLog ℕ) → ItpInfo → Option ℕ
created_block logs itp =
    last_or itp.creation_block (map block_of (filter (is_creation_of itp.index_id) logs))

abbrev pub with_created_block : List (EventLog ℕ) → ItpInfo → ItpInfo
with_created_block logs itp = record itp { creation_block = created_block logs itp }

abbrev pub id_of : ItpInfo → ℕ
id_of itp = itp.index_id

abbrev touched : EventLog ℕ → ItpInfo → ItpInfo
touched log itp =
    if is_creation_of itp.index_id log
    then record itp { creation_block = log.block_number }
    else itp

-- An id that is not there is not found.
set_creation_block-absent :
    (id : ℕ) (block : Option ℕ) (itps : List ItpInfo)
    → contains id (map id_of itps) ≡ false
    → set_creation_block id block itps ≡ itps
unfolding set_creation_block
set_creation_block-absent id block [] h = refl
set_creation_block-absent id block (itp ∷ itps) h =
    ground (arith, set_creation_block-absent id block itps)

touch_none :
    (log : EventLog ℕ) (id : ℕ) (itps : List ItpInfo)
    → log.decoded ≡ ok id
    → contains id (map id_of itps) ≡ false
    → map (touched log) itps ≡ itps
touch_none log id [] e h = refl
touch_none log id (itp ∷ itps) e h =
    let other : is_creation_of itp.index_id log ≡ false = rw e (ground arith) in
    rw other (ap (◌∷◌ itp) (touch_none log id itps e (ground arith)))

set_creation_block-touched :
    (log : EventLog ℕ) (id : ℕ) (itps : List ItpInfo)
    → log.decoded ≡ ok id
    → IsNodup (map id_of itps)
    → set_creation_block id log.block_number itps ≡ map (touched log) itps
unfolding set_creation_block
set_creation_block-touched log id [] e d = refl
set_creation_block-touched log id (itp ∷ itps) e d = elim (Bool-cases (nat_beq itp.index_id id)) [
  | inl same ↦
      let same' : is_creation_of itp.index_id log ≡ true = rw e same in
      let absent : contains id (map id_of itps) ≡ false =
        rw (← ((nat_beq_iff itp.index_id id).0 same)) d.0 in
      rw (same, same')
        (ap (◌∷◌ (record itp { creation_block = log.block_number }))
          (sym (touch_none log id itps e absent)))
  | inr other ↦
      let other' : is_creation_of itp.index_id log ≡ false = rw e other in
      rw (other, other') (ap (◌∷◌ itp) (set_creation_block-touched log id itps e d.1))
]

ids_of_touched :
    (log : EventLog ℕ) (itps : List ItpInfo) → map id_of (map (touched log) itps) ≡ map id_of itps
ids_of_touched log [] = refl
ids_of_touched log (itp ∷ itps) = elim (Bool-cases (is_creation_of itp.index_id log)) [
  | inl e ↦ rw e (ap (◌∷◌ itp.index_id) (ids_of_touched log itps))
  | inr e ↦ rw e (ap (◌∷◌ itp.index_id) (ids_of_touched log itps))
]

touched_itp-created :
    (log : EventLog ℕ) (logs : List (EventLog ℕ)) (itp : ItpInfo)
    → with_created_block logs (touched log itp) ≡ with_created_block (log ∷ logs) itp
touched_itp-created log logs itp = elim (Bool-cases (is_creation_of itp.index_id log)) [
  | inl e ↦ rw e
  | inr e ↦ rw e
]

touched-created :
    (log : EventLog ℕ) (logs : List (EventLog ℕ)) (itps : List ItpInfo)
    → map (with_created_block logs) (map (touched log) itps)
      ≡ map (with_created_block (log ∷ logs)) itps
touched-created log logs [] = refl
touched-created log logs (itp ∷ itps) =
    ap (λ x. x ∷ map (with_created_block logs) (map (touched log) itps))
      (touched_itp-created log logs itp)
    ∙ ap (◌∷◌ (with_created_block (log ∷ logs) itp)) (touched-created log logs itps)

untouched : (itps : List ItpInfo) → map (with_created_block []) itps ≡ itps
untouched [] = refl
untouched (itp ∷ itps) = ap (◌∷◌ itp) (untouched itps)

skipped :
    (log : EventLog ℕ) (error : String) (itps : List ItpInfo)
    → log.decoded ≡ err error
    → map (touched log) itps ≡ itps
skipped log error [] e = refl
skipped log error (itp ∷ itps) e = rw e (ap (◌∷◌ itp) (skipped log error itps e))

enrich_log-found :
    (log : EventLog ℕ) (id : ℕ) (itps : List ItpInfo)
    → log.decoded ≡ ok id
    → enrich_log log itps ≡ set_creation_block id log.block_number itps
unfolding enrich_log
enrich_log-found log id itps e = ground (arith, e)

enrich_log-skipped :
    (log : EventLog ℕ) (error : String) (itps : List ItpInfo)
    → log.decoded ≡ err error
    → enrich_log log itps ≡ itps
unfolding enrich_log
enrich_log-skipped log error itps e = ground (arith, e)

enrich_log_lem :
    (log : EventLog ℕ) (itps : List ItpInfo)
    → IsNodup (map id_of itps)
    → enrich_log log itps ≡ map (touched log) itps
unfolding enrich_log
enrich_log_lem log itps d = elim (Result-cases log.decoded) [
  | inl (id, e) ↦ enrich_log-found log id itps e ∙ set_creation_block-touched log id itps e d
  | inr (error, e) ↦ enrich_log-skipped log error itps e ∙ sym (skipped log error itps e)
]

enrich_loop_lem :
    (logs : List (EventLog ℕ)) (itps : List ItpInfo)
    → IsNodup (map id_of itps)
    → enrich_loop logs itps ≡ map (with_created_block logs) itps
unfolding enrich_loop
enrich_loop_lem [] itps d = sym (untouched itps)
enrich_loop_lem (log ∷ logs) itps d =
    ap (enrich_loop logs) (enrich_log_lem log itps d)
    ∙ enrich_loop_lem logs (map (touched log) itps) (rw (ids_of_touched log itps) d)
    ∙ touched-created log logs itps

-- Where no index is listed twice and the logs can be read, each ITP gets the block of the last log
-- that creates its index, and keeps what was known of it where there is no such log. Nothing else
-- of the ITPs changes, nor does their order.
pub enrich_with_creation_blocks-eq-map :
    (castle : Castle) (itps : List ItpInfo) (logs : List (EventLog ℕ))
    → IsNodup (map id_of itps)
    → castle.index_created 0 ≡ ok logs
    → enrich_with_creation_blocks castle itps ≡ (ok tt, map (with_created_block logs) itps)
unfolding enrich_with_creation_blocks
enrich_with_creation_blocks-eq-map castle itps logs d e =
    rw (e, enrich_with_creation_blocks) (ap (λ out. (ok tt, out)) (enrich_loop_lem logs itps d))
