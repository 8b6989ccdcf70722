-- ===== src/Assets/Union.antt =====
-- What `extract_assets_for_batch` returns for a contract whose lists do not change.
use Prim.Native.String.{String}
use vendor.Base.{
  ℕ, ◌+◌, ◌≤◌, ◌≡◌, sym, ap, ◌∙◌, inl, inr, List, [], ◌∷◌, ◌++◌, Bool, true, false, ◌||◌, nat_beq,
  ltb, length, count, contains, contains-append, contains-count, count-nodup, IsNodup, IsNodup-push,
  IsAscending, Result, ok, err, is_err, is_empty_list, arith, append-nil, append_assoc, Bool-cases,
}
use vendor.Accumulator.Processable.{sort}
use vendor.Accumulator.Processable.Ids.{IsSorted, sort-IsSorted, count-sort}
use vendor.Chain.Listener.{ChainError}
use vendor.Chain.Steward.{StewardClient, Steward, get_index_assets, decode_asset_ids}
use vendor.Chain.Steward.Caching.{Holds, IsCoherent, Answers, get_index_assets-Answers}
use vendor.Assets.{
  ExtractorError, ExtractionResult, Found, nothing_found, add_answer, extend, extract_loop,
  extract_assets_for_batch, batch_result, all_indices_failed,
}

-- A list in order whose numbers are listed once each ascends.
IsAscending-of_sorted :
    (xs : List ℕ) → IsSorted xs → ((v : ℕ) → count (λ x. nat_beq x v) xs ≤ 1) → IsAscending xs
IsAscending-of_sorted [] s once = tt
IsAscending-of_sorted (n ∷ []) s once = tt
IsAscending-of_sorted (n ∷ k ∷ ks) s once =
    (ground (arith, once n), IsAscending-of_sorted (k ∷ ks) s.1 (λ v. ground (arith, once v)))

sort-IsAscending : (xs : List ℕ) → IsNodup xs → IsAscending (sort xs)
sort-IsAscending xs d =
    IsAscending-of_sorted (sort xs) (sort-IsSorted xs)
      (λ v. omega (arith, count-sort (λ x. nat_beq x v) xs, count-nodup v xs d))

contains-sort : (v : ℕ) (xs : List ℕ) → contains v (sort xs) ≡ contains v xs
contains-sort v xs =
    contains-count v (sort xs)
    ∙ ap (ltb 0) (count-sort (λ x. nat_beq x v) xs)
    ∙ sym (contains-count v xs)

extend-IsNodup : (all rest : List ℕ) → IsNodup all → IsNodup (extend all rest)
unfolding extend
extend-IsNodup all [] d = d
extend-IsNodup all (a ∷ rest) d = elim (Bool-cases (contains a all)) [
  | inl old ↦ rw (old, extend) (extend-IsNodup all rest d)
  | inr new ↦ rw (new, extend) (extend-IsNodup (all ++ a ∷ []) rest (IsNodup-push a all new d))
]

contains-extend :
    (v : ℕ) (all rest : List ℕ) → contains v (extend all rest) ≡ (contains v all || contains v rest)
unfolding extend
contains-extend v all [] = ground arith
contains-extend v all (a ∷ rest) = elim (Bool-cases (contains a all)) [
  | inl old ↦ rw (old, extend) (ground (arith, contains-extend v all rest))
  | inr new ↦
      rw (new, extend)
        (ground (arith, contains-extend v (all ++ a ∷ []) rest, contains-append v all (a ∷ [])))
]

-- The ids in order, those that are answered and those that are not, for which the contract fails.
pub data Split (steward : Steward) : List ℕ → List ℕ → List ℕ → Type 0 where
  no_ids : Split steward [] [] []
  answered :
      {kept dropped ids : List ℕ} (id : ℕ)
      → Split steward kept dropped ids
      → Split steward (id ∷ kept) dropped (id ∷ ids)
  failed :
      {kept dropped ids : List ℕ} (id : ℕ)
      → is_err (steward.get_index_assets id) ≡ true
      → Split steward kept dropped ids
      → Split steward kept (id ∷ dropped) (id ∷ ids)

-- The asset is in the list of one of the indices.
abbrev pub held_by : (ℕ → List ℕ) → ℕ → List ℕ → Bool
held_by held a [] = false
held_by held a (id ∷ ids) =
    elim (decode_asset_ids (held id)) [ ok assets ↦ contains a assets | err e ↦ false ]
    || held_by held a ids

or_assoc : (a b c : Bool) → ((a || b) || c) ≡ (a || (b || c))
or_assoc a b c = ground arith

module _ (held : ℕ → List ℕ) (describe : String → ℕ → String → String)
    (to_text : ChainError → String) (steward : Steward) (holds : Holds held steward) (now : ℕ) where
  -- What the loop adds to what was found.
  record Adds (ids : List ℕ) (f f' : Found) : Type 0 where
    kept : List ℕ
    dropped : List ℕ
    split : Split steward kept dropped ids
    failed_ids : f'.failed ≡ f.failed ++ dropped
    successes : f'.successful_count ≡ f.successful_count + length kept
    once : IsNodup f.all_assets → IsNodup f'.all_assets
    union : (a : ℕ) → contains a f'.all_assets ≡ (contains a f.all_assets || held_by held a kept)

  add_answer-Adds :
      (id : ℕ) (ids : List ℕ) (r : Result (List ℕ) ChainError) (f f' : Found)
      → Answers held steward id r
      → Adds ids (add_answer id r f) f'
      → Adds (id ∷ ids) f f'
  add_answer-Adds id ids (ok assets) f f' (inl (listed, e, d)) rest =
      let same : decode_asset_ids (held id) ≡ ok assets = d ∙ sym e in
      record {
        kept = id ∷ rest.kept;
        dropped = rest.dropped;
        split = answered id rest.split;
        failed_ids = rest.failed_ids;
        successes = omega (arith, rest.successes);
        once = λ u. rest.once (extend-IsNodup f.all_assets assets u);
        union = λ a. rw same (
            rest.union a
            ∙ ap (λ b. b || held_by held a rest.kept) (contains-extend a f.all_assets assets)
            ∙ or_assoc (contains a f.all_assets) (contains a assets) (held_by held a rest.kept));
      }
  add_answer-Adds id ids (ok assets) f f' (inr (no_error, fails)) rest = cc
  add_answer-Adds id ids (err error) f f' (inl (listed, e, d)) rest = cc
  add_answer-Adds id ids (err error) f f' (inr (an_error, fails)) rest = record {
    kept = rest.kept;
    dropped = id ∷ rest.dropped;
    split = failed id fails rest.split;
    failed_ids = rest.failed_ids ∙ append_assoc f.failed (id ∷ []) rest.dropped;
    successes = rest.successes;
    once = rest.once;
    union = rest.union;
  }

  extract_loop-Adds :
      (ids : List ℕ) (f : Found) (c : StewardClient)
      → IsCoherent held c
      → Adds ids f (extract_loop describe to_text steward now ids f c).0
        × IsCoherent held (extract_loop describe to_text steward now ids f c).1
  unfolding extract_loop
  extract_loop-Adds [] f c coherent = (
    record {
      kept = [];
      dropped = [];
      split = no_ids;
      failed_ids = sym (append-nil f.failed);
      successes = omega arith;
      once = λ d. d;
      union = λ a. ground arith;
    },
    coherent,
  )
  extract_loop-Adds (id ∷ ids) f c coherent =
      let answer = get_index_assets describe steward now id c in
      let (answers, coherent') =
        get_index_assets-Answers held describe steward holds now id c coherent in
      let (rest, after) = extract_loop-Adds ids (add_answer id answer.0 f) answer.1 coherent' in
      (add_answer-Adds id ids answer.0 f _ answers rest, after)

  -- What the batch gives for the indices that were answered and those that failed.
  abbrev pub IsUnion : (ids kept dropped : List ℕ) → Result ExtractionResult ExtractorError → Type 0
  IsUnion ids [] dropped out = out ≡ err (all_indices_failed (length ids))
  IsUnion ids (k ∷ ks) dropped out =
      (r : ExtractionResult) × (out ≡ ok r)
      × IsAscending r.asset_ids
      × ((a : ℕ) → contains a r.asset_ids ≡ held_by held a (k ∷ ks))
      × (r.successful_indices ≡ length (k ∷ ks))
      × (r.failed_index_ids ≡ dropped)
      × (r.failed_indices ≡ length dropped)

  batch_result-IsUnion :
      (elapsed_ms : ℕ) (ids kept dropped : List ℕ) (f : Found)
      → f.successful_count ≡ length kept
      → f.failed ≡ dropped
      → IsNodup f.all_assets
      → ((a : ℕ) → contains a f.all_assets ≡ held_by held a kept)
      → is_empty_list ids ≡ false
      → IsUnion ids kept dropped (batch_result elapsed_ms ids f)
  unfolding batch_result
  batch_result-IsUnion elapsed_ms ids [] dropped f s d u h some_ids =
      let zero_found : nat_beq f.successful_count 0 ≡ true = ground arith in
      rw (zero_found, some_ids)
  batch_result-IsUnion elapsed_ms ids (k ∷ ks) dropped f s d u h some_ids =
      let not_zero : nat_beq f.successful_count 0 ≡ false = ground arith in
      (
        record {
          asset_ids = sort f.all_assets;
          successful_indices = f.successful_count;
          failed_indices = length f.failed;
          failed_index_ids = f.failed;
          extraction_time_ms = elapsed_ms;
        },
        rw not_zero,
        sort-IsAscending f.all_assets u,
        λ a. contains-sort a f.all_assets ∙ h a,
        s,
        d,
        ap length d,
      )

  -- While the contract's lists do not change and the cached lists agree with them, each index of a
  -- batch that is not empty is answered or is one for which the contract fails. If one is answered,
  -- the assets are those in the list of an answered index and no others, in ascending order and so
  -- without repetition, with the ids that failed and both counts; if none is, the call fails with
  -- the number of indices. The cached lists agree with the contract again.
  pub extract_assets_for_batch-IsUnion :
      (elapsed_ms : ℕ) (ids : List ℕ) (c : StewardClient)
      → IsCoherent held c
      → is_empty_list ids ≡ false
      → let out = extract_assets_for_batch describe to_text steward now elapsed_ms ids c in
        ((kept : List ℕ) × (dropped : List ℕ) × Split steward kept dropped ids
          × IsUnion ids kept dropped out.0)
        × IsCoherent held out.1
  unfolding extract_assets_for_batch
  extract_assets_for_batch-IsUnion elapsed_ms ids c coherent some_ids =
      let loop = extract_loop describe to_text steward now ids nothing_found c in
      let (found, after) = extract_loop-Adds ids nothing_found c coherent in
      rw some_ids (
        (
          found.kept,
          found.dropped,
          found.split,
          batch_result-IsUnion elapsed_ms ids found.kept found.dropped loop.0
              (omega (arith, found.successes)) found.failed_ids (found.once tt) found.union
              some_ids,
        ),
        after,
      )
