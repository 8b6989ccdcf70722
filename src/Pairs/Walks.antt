-- ===== src/Pairs/Walks.antt =====
-- The output and the walk of the hash map.
use Prim.Native.String.{String}
use vendor.Base.{
  All-append, All-map, ◌≡◌, ◌≢◌, sym, ap, ◌∙◌, List, [], ◌∷◌, ◌++◌, Option, none, some, All, length,
}
use vendor.Base.Order.{
  Reordered, same, under, swapped, both, HasDistinctKeys, sort_by, sort_by-Reordered,
}
use vendor.Pairs.{
  BitgetProduct, Stats, initial_stats, online_loop, group_loop, Walk,
  select_pairs_with_usdc_priority, number_from, base_of, list_pairs,
}
use vendor.Pairs.Groups.{Groups, key_of, HasKeyAsBase, IsGrouped, group_loop-IsGrouped}
use vendor.Pairs.Selection.{to_list, chosen, chosen_all, chosen-All, select_loop-chosen}

pub Reordered-refl : {A : Type 0} (xs : List A) → Reordered xs xs
Reordered-refl [] = same
Reordered-refl (x ∷ xs) = under x (Reordered-refl xs)

prepend :
    {A : Type 0} (o : Option A) {xs ys : List A}
    → Reordered xs ys
    → Reordered (to_list o ++ xs) (to_list o ++ ys)
prepend none r = r
prepend (some a) r = under a r

exchange :
    {A : Type 0} (o p : Option A) (xs : List A)
    → Reordered (to_list o ++ (to_list p ++ xs)) (to_list p ++ (to_list o ++ xs))
exchange none p xs = Reordered-refl (to_list p ++ xs)
exchange (some a) none xs = Reordered-refl (a ∷ xs)
exchange (some a) (some b) xs = swapped a b xs

chosen_all-Reordered : {m m' : Groups} → Reordered m m' → Reordered (chosen_all m) (chosen_all m')
chosen_all-Reordered same = same
chosen_all-Reordered (under (j, ps) r) = prepend (chosen ps) (chosen_all-Reordered r)
chosen_all-Reordered (swapped (j, ps) (k, qs) m) = exchange (chosen ps) (chosen qs) (chosen_all m)
chosen_all-Reordered (both r q) = both (chosen_all-Reordered r) (chosen_all-Reordered q)

-- No other group has a product of the base coin `j`.
chosen_all-other :
    (j : String) (m : Groups)
    → All (λ g. j ≢ key_of g) m
    → All HasKeyAsBase m
    → All (λ p. j ≢ base_of p) (chosen_all m)
chosen_all-other j [] ne h = tt
chosen_all-other j ((k, ps) ∷ m) ne h =
    All-append (λ p. j ≢ base_of p) (to_list (chosen ps)) (chosen_all m)
      (chosen-All (λ p. j ≢ base_of p) ps
        (All-map (λ p. p.base_coin ≡ k) (λ p. j ≢ base_of p) ps (λ p e s. ne.0 (s ∙ e)) h.0))
      (chosen_all-other j m ne.1 h.1)

keys_of_one :
    (o : Option BitgetProduct) (j : String) (rest : List BitgetProduct)
    → All (λ p. p.base_coin ≡ j) (to_list o)
    → All (λ p. j ≢ base_of p) rest
    → HasDistinctKeys base_of rest
    → HasDistinctKeys base_of (to_list o ++ rest)
keys_of_one none j rest h ne d = d
keys_of_one (some p) j rest h ne d = (
  All-map (λ q. j ≢ base_of q) (λ q. base_of p ≢ base_of q) rest (λ q n s. n (sym h.0 ∙ s)) ne,
  d,
)

chosen_all-HasDistinctKeys : (m : Groups) → IsGrouped m → HasDistinctKeys base_of (chosen_all m)
chosen_all-HasDistinctKeys [] g = tt
chosen_all-HasDistinctKeys ((j, ps) ∷ m) g =
    keys_of_one (chosen ps) j (chosen_all m) (chosen-All (λ p. p.base_coin ≡ j) ps g.1.0)
      (chosen_all-other j m g.0.0 g.1.1) (chosen_all-HasDistinctKeys m (g.0.1, g.1.1))

sorted_selection :
    (walk : Walk) (products : List BitgetProduct) (stats : Stats)
    → ((m : Groups) → Reordered m (walk m))
    → sort_by base_of (select_pairs_with_usdc_priority walk products stats).0
      ≡ sort_by base_of (chosen_all (group_loop products ([], stats)).0)
unfolding select_pairs_with_usdc_priority
sorted_selection walk products stats walked =
    let m = (group_loop products ([], stats)).0 in
    ap (sort_by base_of) (select_loop-chosen (walk m) _)
    ∙ sym (
        sort_by-Reordered base_of (chosen_all-Reordered (walked m))
          (chosen_all-HasDistinctKeys m (group_loop-IsGrouped products [] stats (tt, tt))))

-- However the hash map is walked, the pairs of the output and their ids are the same.
pub list_pairs-walk :
    (walk walk' : Walk) (products : List BitgetProduct)
    → ((m : Groups) → Reordered m (walk m))
    → ((m : Groups) → Reordered m (walk' m))
    → (list_pairs walk products).0 ≡ (list_pairs walk' products).0
unfolding list_pairs
list_pairs-walk walk walk' products walked walked' =
    let (online, stats) = online_loop products ([], initial_stats (length products)) in
    let stats' : Stats = record stats { online_pairs = length online } in
    ap (number_from 0) (
      sorted_selection walk online stats' walked
      ∙ sym (sorted_selection walk' online stats' walked'))
