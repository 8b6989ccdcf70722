-- ===== src/Pairs/Selection.antt =====
-- Which pairs are selected.
use Prim.Native.String.{String}
use vendor.Base.{
  ◌≡◌, ◌≢◌, refl, sym, ap, subst, ◌∙◌, inl, inr, List, [], ◌∷◌, ◌++◌, Option, none, some, true,
  ◌&&◌, if◌then◌else◌, All, filter, unwrap_or, arith, Bool-cases, append_assoc, append-nil,
}
use vendor.Base.Map.{string_eq, ◌==◌}
use vendor.Base.Order.{Reordered}
use vendor.Pairs.{
  BitgetProduct, Stats, has_listed_quote, group_loop, find_quote, select, select_loop, Walk,
  select_pairs_with_usdc_priority,
}
use vendor.Pairs.Groups.{
  Groups, key_of, HasKeyAsBase, IsGrouped, products_of, has_base, group_loop-IsGrouped,
  group_loop-products_of, IsGrouped-Reordered, lookup-Reordered,
}

abbrev pub or_else : {A : Type 0} → Option A → Option A → Option A
or_else none o = o
or_else (some a) o = some a

abbrev pub to_list : {A : Type 0} → Option A → List A
to_list none = []
to_list (some a) = a ∷ []

-- The USDC pair of a group, or else its USDT pair.
abbrev pub chosen : List BitgetProduct → Option BitgetProduct
chosen ps = or_else (find_quote "USDC" ps) (find_quote "USDT" ps)

abbrev pub chosen_all : Groups → List BitgetProduct
chosen_all [] = []
chosen_all ((base, ps) ∷ m) = to_list (chosen ps) ++ chosen_all m

select-chosen :
    (usdc usdt : Option BitgetProduct) (found : List BitgetProduct × Stats)
    → (select usdc usdt found).0 ≡ found.0 ++ to_list (or_else usdc usdt)
unfolding select
select-chosen (some usdc) (some usdt) found = refl
select-chosen (some usdc) none found = refl
select-chosen none (some usdt) found = refl
select-chosen none none found = sym (append-nil found.0)

pub select_loop-chosen :
    (m : Groups) (found : List BitgetProduct × Stats)
    → (select_loop m found).0 ≡ found.0 ++ chosen_all m
unfolding select_loop
select_loop-chosen [] found = sym (append-nil found.0)
select_loop-chosen ((base, ps) ∷ m) found =
    select_loop-chosen m _
    ∙ ap (λ l. l ++ chosen_all m)
        (select-chosen (find_quote "USDC" ps) (find_quote "USDT" ps) found)
    ∙ append_assoc found.0 (to_list (chosen ps)) (chosen_all m)

-- What is found in a list satisfies what all of the list do.
find_quote-All :
    (P : BitgetProduct → Type 0) (quote : String) (ps : List BitgetProduct)
    → All P ps
    → All P (to_list (find_quote quote ps))
find_quote-All P quote [] h = tt
find_quote-All P quote (p ∷ ps) h = elim (Bool-cases (p.quote_coin == quote)) [
  | inl e ↦ rw e (h.0, tt)
  | inr e ↦ rw e (find_quote-All P quote ps h.1)
]

All-or_else :
    (P : BitgetProduct → Type 0) (a b : Option BitgetProduct)
    → All P (to_list a)
    → All P (to_list b)
    → All P (to_list (or_else a b))
All-or_else P none b h k = k
All-or_else P (some a) b h k = h

pub chosen-All :
    (P : BitgetProduct → Type 0) (ps : List BitgetProduct) → All P ps → All P (to_list (chosen ps))
chosen-All P ps h =
    All-or_else P (find_quote "USDC" ps) (find_quote "USDT" ps) (find_quote-All P "USDC" ps h)
      (find_quote-All P "USDT" ps h)

module _ (b : String) where
  filter-All :
      (xs ys : List BitgetProduct)
      → All (λ p. p.base_coin ≡ b) xs
      → filter (has_base b) (xs ++ ys) ≡ xs ++ filter (has_base b) ys
  filter-All [] ys h = refl
  filter-All (x ∷ xs) ys h =
      rw ((string_eq.same_iff x.base_coin b).1 h.0) (ap (◌∷◌ x) (filter-All xs ys h.1))

  filter-of_other :
      (j : String) (xs ys : List BitgetProduct)
      → j ≢ b
      → All (λ p. p.base_coin ≡ j) xs
      → filter (has_base b) (xs ++ ys) ≡ filter (has_base b) ys
  filter-of_other j [] ys ne h = refl
  filter-of_other j (x ∷ xs) ys ne h = elim (Bool-cases (has_base b x)) [
    | inl e ↦ absurd (ne (sym h.0 ∙ (string_eq.same_iff x.base_coin b).0 e))
    | inr e ↦ rw e (filter-of_other j xs ys ne h.1)
  ]

  -- No group of another base coin has a product of `b`.
  absent :
      (m : Groups)
      → All (λ g. b ≢ key_of g) m
      → All HasKeyAsBase m
      → filter (has_base b) (chosen_all m) ≡ []
  absent [] ne h = refl
  absent ((j, ps) ∷ m) ne h =
      filter-of_other j (to_list (chosen ps)) (chosen_all m) (λ e. ne.0 (sym e))
        (chosen-All (λ p. p.base_coin ≡ j) ps h.0)
      ∙ absent m ne.1 h.1

  chosen_all-products_of :
      (m : Groups)
      → IsGrouped m
      → filter (has_base b) (chosen_all m) ≡ to_list (chosen (products_of b m))
  chosen_all-products_of [] g = refl
  chosen_all-products_of ((j, ps) ∷ m) g = elim (Bool-cases (j == b)) [
    | inl e ↦
        let here : j ≡ b = (string_eq.same_iff j b).0 e in
        let same_base : All (λ p. p.base_coin ≡ b) (to_list (chosen ps)) =
          subst (λ k. All (λ p. p.base_coin ≡ k) (to_list (chosen ps))) here
            (chosen-All (λ p. p.base_coin ≡ j) ps g.1.0) in
        let rest : filter (has_base b) (chosen_all m) ≡ [] =
          absent m (subst (λ k. All (λ h. k ≢ key_of h) m) here g.0.0) g.1.1 in
        rw e (
          filter-All (to_list (chosen ps)) (chosen_all m) same_base
          ∙ ap (λ l. to_list (chosen ps) ++ l) rest
          ∙ append-nil (to_list (chosen ps)))
    | inr e ↦
        let other : j ≢ b = λ s. cc (e, (string_eq.same_iff j b).1 s) in
        rw e (
          filter-of_other j (to_list (chosen ps)) (chosen_all m) other
            (chosen-All (λ p. p.base_coin ≡ j) ps g.1.0)
          ∙ chosen_all-products_of m (g.0.1, g.1.1))
  ]

-- The first product of a base coin in a quote coin.
abbrev pub find_pair : (base quote : String) → List BitgetProduct → Option BitgetProduct
find_pair base quote [] = none
find_pair base quote (p ∷ ps) =
    if p.base_coin == base && p.quote_coin == quote then some p else find_pair base quote ps

find_quote-find_pair :
    (b quote : String) (products : List BitgetProduct)
    → ((p : BitgetProduct) → p.quote_coin == quote ≡ true → has_listed_quote p ≡ true)
    → find_quote quote (filter (has_base b) (filter has_listed_quote products))
      ≡ find_pair b quote products
find_quote-find_pair b quote [] listed = refl
find_quote-find_pair b quote (p ∷ products) listed = elim (Bool-cases (p.quote_coin == quote)) [
  | inl e ↦ rw (listed p e) (elim (Bool-cases (p.base_coin == b)) [
    | inl f ↦ rw (f, e)
    | inr f ↦ rw f (find_quote-find_pair b quote products listed)
  ])
  | inr e ↦ ground (arith, e, find_quote-find_pair b quote products listed)
]

-- However the hash map is walked, at most one pair is selected for each base coin: the first listed
-- in USDC, where there is one, or else the first in USDT, or else none.
pub select_pairs_with_usdc_priority-find_pair :
    (walk : Walk) (products : List BitgetProduct) (stats : Stats) (base : String)
    → ((m : Groups) → Reordered m (walk m))
    → filter (has_base base) (select_pairs_with_usdc_priority walk products stats).0
      ≡ to_list (or_else (find_pair base "USDC" products) (find_pair base "USDT" products))
unfolding select_pairs_with_usdc_priority
select_pairs_with_usdc_priority-find_pair walk products stats b walked =
    let m = (group_loop products ([], stats)).0 in
    let grouped = group_loop-IsGrouped products [] stats (tt, tt) in
    let listed = filter (has_base b) (filter has_listed_quote products) in
    let group : products_of b (walk m) ≡ listed =
      ap (λ o. unwrap_or o []) (sym (lookup-Reordered b (walked m) grouped.0))
      ∙ group_loop-products_of b products [] stats in
    ap (filter (has_base b)) (select_loop-chosen (walk m) _)
    ∙ chosen_all-products_of b (walk m) (IsGrouped-Reordered (walked m) grouped)
    ∙ ap (λ ps. to_list (chosen ps)) group
    ∙ ap (λ o. to_list (or_else o (find_quote "USDT" listed)))
        (find_quote-find_pair b "USDC" products (λ p e. rw e))
    ∙ ap (λ o. to_list (or_else (find_pair b "USDC" products) o))
        (find_quote-find_pair b "USDT" products (λ p e. ground (arith, e)))
