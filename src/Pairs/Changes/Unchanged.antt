-- ===== src/Pairs/Changes/Unchanged.antt =====
-- When a run counts as unchanged.
use Prim.Native.String.{String}
use vendor.Base.{
  ◌≡◌, ◌↔◌, refl, sym, ap, ◌∙◌, inl, inr, List, [], ◌∷◌, ◌++◌, Option, none, some, true,
  if◌then◌else◌, map_option, ok, arith, Bool-cases, Option-cases,
}
use vendor.Base.Map.{
  string_eq, ◌==◌, lookup, insert, contains_key, Distinct, insert-Distinct, lookup-insert,
}
use vendor.Pairs.{OutputPair}
use vendor.Pairs.Changes.{
  Change, added, removed, ByBase, by_base_loop, by_base, missing, quote_change, modified,
  all_changes, check_for_changes,
}

-- The last pair of a base coin, or `d` where there is none.
abbrev pub last_pair : (base : String) → Option OutputPair → List OutputPair → Option OutputPair
last_pair base d [] = d
last_pair base d (p ∷ pairs) = last_pair base (if p.base_coin == base then some p else d) pairs

abbrev pub quote_of : OutputPair → String
quote_of p = p.quote_coin

by_base_loop-lookup :
    (b : String) (pairs : List OutputPair) (m : ByBase)
    → lookup b (by_base_loop pairs m) ≡ last_pair b (lookup b m) pairs
unfolding by_base_loop
by_base_loop-lookup b [] m = refl
by_base_loop-lookup b (p ∷ pairs) m =
    by_base_loop-lookup b pairs (insert p.base_coin p m)
    ∙ ap (λ d. last_pair b d pairs) (lookup-insert p.base_coin b p m)

by_base_loop-Distinct :
    (pairs : List OutputPair) (m : ByBase) → Distinct m → Distinct (by_base_loop pairs m)
unfolding by_base_loop
by_base_loop-Distinct [] m d = d
by_base_loop-Distinct (p ∷ pairs) m d =
    by_base_loop-Distinct pairs (insert p.base_coin p m) (insert-Distinct p.base_coin p m d)

-- Each base coin of `m` is one of `other`.
abbrev Covers : (other m : ByBase) → Type 0
Covers other m = (b : String) → contains_key b m ≡ true → contains_key b other ≡ true

module _ (change : OutputPair → Change) (other : ByBase) where
  missing-nil : (m : ByBase) → missing change other m ≡ [] → Covers other m
  unfolding missing
  missing-nil [] h b k = cc k
  missing-nil ((j, p) ∷ m) h b k = elim (Bool-cases (contains_key j other)) [
    | inr e ↦ cc (rw (e, missing) at h)
    | inl e ↦ elim (Bool-cases (j == b)) [
      | inl f ↦ rw (← ((string_eq.same_iff j b).0 f)) e
      | inr f ↦ missing-nil m (rw (e, missing) at h) b (rw (f, contains_key) at k)
    ]
  ]

  Covers-missing : (m : ByBase) → Covers other m → missing change other m ≡ []
  unfolding missing
  Covers-missing [] h = refl
  Covers-missing ((j, p) ∷ m) h =
      let here : contains_key j other ≡ true =
        h j (rw ((string_eq.same_iff j j).1 refl, contains_key)) in
      rw (here, missing)
        (Covers-missing m (λ b k. elim (Bool-cases (j == b)) [
          | inl f ↦ rw (← ((string_eq.same_iff j b).0 f)) here
          | inr f ↦ h b (rw (f, contains_key) k)
        ]))

-- Where both maps have a base coin, they have it with the same quote coin.
abbrev Agrees : (existing m : ByBase) → Type 0
Agrees existing m =
    (b : String) (p q : OutputPair)
    → lookup b m ≡ some p
    → lookup b existing ≡ some q
    → quote_of q ≡ quote_of p

quote_change-nil :
    (b : String) (p q : OutputPair) → quote_change b p (some q) ≡ [] → quote_of q ≡ quote_of p
quote_change-nil b p q h = ground (arith, string_eq.same_iff q.quote_coin p.quote_coin, h)

quote_change-same :
    (b : String) (p q : OutputPair) → quote_of q ≡ quote_of p → quote_change b p (some q) ≡ []
quote_change-same b p q h = ground (arith, string_eq.same_iff q.quote_coin p.quote_coin, h)

append-nil_left : {A : Type 0} (xs ys : List A) → xs ++ ys ≡ [] → (xs ≡ []) × (ys ≡ [])
append-nil_left [] ys h = (refl, h)
append-nil_left (x ∷ xs) ys h = cc h

module _ (existing : ByBase) where
  modified-nil : (m : ByBase) → modified existing m ≡ [] → Agrees existing m
  unfolding modified
  modified-nil [] h b p q k l = cc k
  modified-nil ((j, new) ∷ m) h b p q k l =
      let parts =
        append-nil_left (quote_change j new (lookup j existing)) (modified existing m) h in
      elim (Bool-cases (j == b)) [
        | inl f ↦
            let at_b : lookup j existing ≡ some q = rw ((string_eq.same_iff j b).0 f) l in
            let first : new ≡ p = cc (rw f at k) in
            quote_change-nil j new q (rw at_b at parts.0) ∙ ap quote_of first
        | inr f ↦ modified-nil m parts.1 b p q (rw f at k) l
      ]

  Agrees-modified : (m : ByBase) → Distinct m → Agrees existing m → modified existing m ≡ []
  unfolding modified
  Agrees-modified [] d h = refl
  Agrees-modified ((j, new) ∷ m) d h =
      let rest : modified existing m ≡ [] = Agrees-modified m d.1 (λ b p q k l.
        elim (Bool-cases (j == b)) [
          | inl f ↦ cc (k, d.0, (string_eq.same_iff j b).0 f)
          | inr f ↦ h b p q (rw f k) l
        ]) in
      let here : quote_change j new (lookup j existing) ≡ [] =
        elim (Option-cases (lookup j existing)) [
          | inl e ↦ rw e
          | inr (q, e) ↦
              rw e (quote_change-same j new q (h j new q (rw ((string_eq.same_iff j j).1 refl)) e))
        ] in
      rw (here, rest)

append-nil_right : {A : Type 0} (xs ys : List A) → xs ≡ [] → ys ≡ [] → xs ++ ys ≡ []
append-nil_right xs ys e f = rw (e, f)

-- The quote coin of each base coin.
abbrev quote_at : String → ByBase → Option String
quote_at b m = map_option quote_of (lookup b m)

module _ (existing new : ByBase) where
  agree :
      Covers existing new
      → Covers new existing
      → Agrees existing new
      → (b : String) → quote_at b existing ≡ quote_at b new
  agree c c' a b = elim (Option-cases (lookup b existing)) [
    | inl e ↦ elim (Option-cases (lookup b new)) [
      | inl f ↦ rw (e, f)
      | inr (p, f) ↦ cc (rw (e, contains_key) at (c b (rw (f, contains_key))))
    ]
    | inr (q, e) ↦ elim (Option-cases (lookup b new)) [
      | inl f ↦ cc (rw (f, contains_key) at (c' b (rw (e, contains_key))))
      | inr (p, f) ↦ rw (e, f) (ap some (a b p q f e))
    ]
  ]

  covers :
      ((b : String) → quote_at b existing ≡ quote_at b new)
      → Covers existing new × Covers new existing × Agrees existing new
  covers h = (
    (λ b k. elim (Option-cases (lookup b existing)) [
      | inr (q, e) ↦ rw (e, contains_key)
      | inl e ↦ elim (Option-cases (lookup b new)) [
        | inl f ↦ cc (rw (f, contains_key) at k)
        | inr (p, f) ↦ cc (rw (e, f) at (h b))
      ]
    ]),
    (λ b k. elim (Option-cases (lookup b new)) [
      | inr (q, e) ↦ rw (e, contains_key)
      | inl e ↦ elim (Option-cases (lookup b existing)) [
        | inl f ↦ cc (rw (f, contains_key) at k)
        | inr (p, f) ↦ cc (rw (e, f) at (h b))
      ]
    ]),
    (λ b p q k l. cc (rw (k, l) at (h b))),
  )

  all_changes-nil :
      Distinct new
      → (all_changes existing new ≡ []) ↔ ((b : String) → quote_at b existing ≡ quote_at b new)
  unfolding all_changes
  all_changes-nil d =
      let added' = missing (λ p. added p.symbol p.id) existing new in
      let removed' = missing (λ p. removed p.symbol p.id) new existing in
      let changed = modified existing new in
      (
        (λ none_changed.
            let first = append-nil_left added' (removed' ++ changed) none_changed in
            let second = append-nil_left removed' changed first.1 in
            agree (missing-nil _ existing new first.0) (missing-nil _ new existing second.0)
              (modified-nil existing new second.1)),
        (λ same_quotes.
            let (c, c', a) = covers same_quotes in
            append-nil_right added' (removed' ++ changed) (Covers-missing _ existing new c) (
              append-nil_right removed' changed (Covers-missing _ new existing c')
                (Agrees-modified existing new d a))),
      )

-- Where the file of the last run lists pairs, a run counts as unchanged exactly if both lists have
-- the same base coins, each with the same quote coin in its last pair. Ids, amounts and scales may
-- differ.
pub check_for_changes-unchanged :
    (existing_pairs new_pairs : List OutputPair)
    → (check_for_changes (some (ok existing_pairs)) new_pairs ≡ ok []) ↔ (
        (b : String)
        → map_option quote_of (last_pair b none existing_pairs)
          ≡ map_option quote_of (last_pair b none new_pairs))
unfolding check_for_changes by_base
check_for_changes-unchanged existing_pairs new_pairs =
    let existing = by_base existing_pairs in
    let new = by_base new_pairs in
    let equivalence = all_changes-nil existing new (by_base_loop-Distinct new_pairs [] tt) in
    let of_existing =
      λ (b : String). ap (map_option quote_of) (by_base_loop-lookup b existing_pairs []) in
    let of_new = λ (b : String). ap (map_option quote_of) (by_base_loop-lookup b new_pairs []) in
    (
      (λ unchanged b. sym (of_existing b) ∙ equivalence.0 (cc unchanged) b ∙ of_new b),
      (λ same_quotes. ap ok (equivalence.1 (λ b. of_existing b ∙ same_quotes b ∙ sym (of_new b)))),
    )
