-- ===== src/Pairs/Groups.antt =====
-- The groups by base coin, and what is chosen of them.
use Prim.Native.String.{String}
use vendor.Base.{
  All-push, ◌+◌, ◌≡◌, ◌≢◌, refl, sym, ap, ◌∙◌, inl, inr, List, [], ◌∷◌, ◌++◌, some, Bool, true,
  false, if◌then◌else◌, All, filter, unwrap_or, arith, Bool-cases, append_assoc, append-nil,
}
use vendor.Base.Map.{Map, string_eq, ◌==◌, lookup}
use vendor.Base.Order.{
  Reordered, same, under, swapped, both, HasDistinctKeys, All-Reordered, HasDistinctKeys-Reordered,
}
use vendor.Pairs.{BitgetProduct, Stats, push_product, has_listed_quote, group_loop}

abbrev pub Groups : Type 0
Groups = Map String (List BitgetProduct)

abbrev pub key_of : String × List BitgetProduct → String
key_of g = g.0

abbrev pub HasKeyAsBase : String × List BitgetProduct → Type 0
HasKeyAsBase g = All (λ p. p.base_coin ≡ g.0) g.1

-- No base coin has two groups, and a group holds products of its base coin only.
abbrev pub IsGrouped : Groups → Type 0
IsGrouped m = HasDistinctKeys key_of m × All HasKeyAsBase m

abbrev pub products_of : String → Groups → List BitgetProduct
products_of b m = unwrap_or (lookup b m) []

-- Another key than that of the product is new to the groups only if it was.
push_product-fresh :
    (p : BitgetProduct) (j : String) (m : Groups)
    → j ≢ p.base_coin
    → All (λ g. j ≢ key_of g) m
    → All (λ g. j ≢ key_of g) (push_product p m)
unfolding push_product
push_product-fresh p j [] ne h = (ne, tt)
push_product-fresh p j ((base, ps) ∷ m) ne h = elim (Bool-cases (base == p.base_coin)) [
  | inl e ↦ rw e h
  | inr e ↦ rw e (h.0, push_product-fresh p j m ne h.1)
]

push_product-IsGrouped :
    (p : BitgetProduct) (m : Groups) → IsGrouped m → IsGrouped (push_product p m)
unfolding push_product
push_product-IsGrouped p [] g = ((tt, tt), ((refl, tt), tt))
push_product-IsGrouped p ((base, ps) ∷ m) g = elim (Bool-cases (base == p.base_coin)) [
  | inl e ↦
      let here : p.base_coin ≡ base = sym ((string_eq.same_iff base p.base_coin).0 e) in
      rw e (g.0, (All-push (λ q. q.base_coin ≡ base) ps p g.1.0 here, g.1.1))
  | inr e ↦
      let other : base ≢ p.base_coin = λ s. cc (e, (string_eq.same_iff base p.base_coin).1 s) in
      let rest = push_product-IsGrouped p m (g.0.1, g.1.1) in
      rw e ((push_product-fresh p base m other g.0.0, rest.0), (g.1.0, rest.1))
]

group_loop-listed :
    (p : BitgetProduct) (products : List BitgetProduct) (m : Groups) (stats : Stats)
    → has_listed_quote p ≡ true
    → group_loop (p ∷ products) (m, stats) ≡ group_loop products (push_product p m, stats)
unfolding group_loop
group_loop-listed p products m stats e = rw (e, group_loop)

group_loop-unlisted :
    (p : BitgetProduct) (products : List BitgetProduct) (m : Groups) (stats : Stats)
    → has_listed_quote p ≡ false
    → group_loop (p ∷ products) (m, stats)
      ≡ group_loop products
          (m, record stats { excluded_other_quote = stats.excluded_other_quote + 1 })
unfolding group_loop
group_loop-unlisted p products m stats e = rw (e, group_loop)

pub group_loop-IsGrouped :
    (products : List BitgetProduct) (m : Groups) (stats : Stats)
    → IsGrouped m
    → IsGrouped (group_loop products (m, stats)).0
unfolding group_loop
group_loop-IsGrouped [] m stats g = g
group_loop-IsGrouped (p ∷ products) m stats g = elim (Bool-cases (has_listed_quote p)) [
  | inl e ↦
      rw (group_loop-listed p products m stats e)
        (group_loop-IsGrouped products (push_product p m) stats (push_product-IsGrouped p m g))
  | inr e ↦ rw (group_loop-unlisted p products m stats e) (group_loop-IsGrouped products m _ g)
]

push_product-products_of :
    (p : BitgetProduct) (b : String) (m : Groups)
    → products_of b (push_product p m)
      ≡ (if p.base_coin == b then products_of b m ++ p ∷ [] else products_of b m)
unfolding push_product
push_product-products_of p b [] = ground arith
push_product-products_of p b ((base, ps) ∷ m) = ground (
  arith,
  string_eq.same_iff base p.base_coin,
  string_eq.same_iff base b,
  string_eq.same_iff p.base_coin b,
  push_product-products_of p b m,
)

abbrev pub has_base : String → BitgetProduct → Bool
has_base b p = p.base_coin == b

pushed :
    (p : BitgetProduct) (b : String) (xs rest : List BitgetProduct)
    → (if p.base_coin == b then xs ++ p ∷ [] else xs) ++ filter (has_base b) rest
      ≡ xs ++ filter (has_base b) (p ∷ rest)
pushed p b xs rest = elim (Bool-cases (p.base_coin == b)) [
  | inl e ↦ rw e (append_assoc xs (p ∷ []) (filter (has_base b) rest))
  | inr e ↦ rw e
]

-- The group of a base coin holds the products of that coin in a listed quote, in their order.
pub group_loop-products_of :
    (b : String) (products : List BitgetProduct) (m : Groups) (stats : Stats)
    → products_of b (group_loop products (m, stats)).0
      ≡ products_of b m ++ filter (has_base b) (filter has_listed_quote products)
unfolding group_loop
group_loop-products_of b [] m stats = sym (append-nil _)
group_loop-products_of b (p ∷ products) m stats = elim (Bool-cases (has_listed_quote p)) [
  | inr e ↦ rw (group_loop-unlisted p products m stats e, e) (group_loop-products_of b products m _)
  | inl e ↦
      rw (group_loop-listed p products m stats e, e)
        (group_loop-products_of b products (push_product p m) stats
          ∙ ap (λ l. l ++ filter (has_base b) (filter has_listed_quote products))
              (push_product-products_of p b m)
          ∙ pushed p b (products_of b m) (filter has_listed_quote products))
]

-- The walk changes neither.
pub IsGrouped-Reordered : {m m' : Groups} → Reordered m m' → IsGrouped m → IsGrouped m'
IsGrouped-Reordered r g = (HasDistinctKeys-Reordered key_of r g.0, All-Reordered HasKeyAsBase r g.1)

pub lookup-Reordered :
    (b : String) {m m' : Groups}
    → Reordered m m'
    → HasDistinctKeys key_of m
    → lookup b m ≡ lookup b m'
lookup-Reordered b same d = refl
lookup-Reordered b (under (j, ps) r) d =
    ap (λ o. if j == b then some ps else o) (lookup-Reordered b r d.1)
lookup-Reordered b (swapped (j, ps) (k, qs) m) d =
    let ne = d.0.0 in ground (arith, string_eq.same_iff j b, string_eq.same_iff k b, ne)
lookup-Reordered b (both r q) d =
    lookup-Reordered b r d ∙ lookup-Reordered b q (HasDistinctKeys-Reordered key_of r d)
