-- ===== src/Base/Order.antt =====
-- The order of `str`, by code points, and insertion sort by a text.
use Prim.Native.Nat.{ℕ, Ordering, compare as compare_ℕ}
use Prim.Native.Char.{Char, code}
use Prim.Native.String.{String, compare as str_compare}
use Prim.Native.String.compare
use mathlib.Core.Path.{◌≡◌, refl, sym, ap, ◌∙◌}
use mathlib.Core.Bool.{Bool, true, false}
use mathlib.Core.List.{List, [], ◌∷◌, map}
use mathlib.Core.Logic.{◌≢◌}
use native.Mathlib.Omega.{arith}
use text.Mathlib.TextEquality.{path_by_compare}
use vendor.Base.Tests.{if◌then◌else◌}
use vendor.Base.Lists.{All}

abbrev pub is_le : Ordering → Bool
is_le Ordering.lt = true
is_le Ordering.eq = true
is_le Ordering.gt = false

abbrev pub str_le : String → String → Bool
str_le s t = is_le (str_compare s t)

le_then : ℕ → ℕ → Bool → Bool
le_then a b rest = elim (compare_ℕ a b) [
  | Ordering.lt ↦ true
  | Ordering.eq ↦ rest
  | Ordering.gt ↦ false
]

str_le-cons :
    (c d : Char) (s t : String)
    → str_le (String.◌∷◌ c s) (String.◌∷◌ d t) ≡ le_then (code c) (code d) (str_le s t)
unfolding le_then
str_le-cons c d s t = rw (compare.cons-cons c d s t) (ground arith)

pub str_le_total : (s t : String) → str_le s t ≡ false → str_le t s ≡ true
unfolding le_then
str_le_total String.[] String.[] h = refl
str_le_total String.[] (String.◌∷◌ d t) h = cc (rw (compare.nil-cons d t) at h)
str_le_total (String.◌∷◌ c s) String.[] h = rw (compare.nil-cons c s)
str_le_total (String.◌∷◌ c s) (String.◌∷◌ d t) h =
    ground (arith, str_le-cons c d s t, str_le-cons d c t s, str_le_total s t)

pub str_le_trans : (s t u : String) → str_le s t ≡ true → str_le t u ≡ true → str_le s u ≡ true
unfolding le_then
str_le_trans String.[] t String.[] h k = refl
str_le_trans String.[] t (String.◌∷◌ e u) h k = rw (compare.nil-cons e u)
str_le_trans (String.◌∷◌ c s) String.[] u h k = cc (rw (compare.cons-nil c s) at h)
str_le_trans (String.◌∷◌ c s) (String.◌∷◌ d t) String.[] h k = cc (rw (compare.cons-nil d t) at k)
str_le_trans (String.◌∷◌ c s) (String.◌∷◌ d t) (String.◌∷◌ e u) h k =
    ground
      (arith, str_le-cons c d s t, str_le-cons d e t u, str_le-cons c e s u, str_le_trans s t u)

str_compare-flip :
    (s t : String) → str_le s t ≡ true → str_le t s ≡ true → str_compare s t ≡ Ordering.eq
unfolding le_then
str_compare-flip String.[] String.[] h k = refl
str_compare-flip String.[] (String.◌∷◌ d t) h k = cc (rw (compare.cons-nil d t) at k)
str_compare-flip (String.◌∷◌ c s) String.[] h k = cc (rw (compare.cons-nil c s) at h)
str_compare-flip (String.◌∷◌ c s) (String.◌∷◌ d t) h k =
    rw (compare.cons-cons c d s t)
      (ground (arith, str_le-cons c d s t, str_le-cons d c t s, str_compare-flip s t))

pub str_le_antisymm : (s t : String) → str_le s t ≡ true → str_le t s ≡ true → s ≡ t
str_le_antisymm s t h k = path_by_compare s t (str_compare-flip s t h k)

-- `sort_by` a text, which keeps the order of what is equal.
module _ {A : Type 0} (key : A → String) where
  pub insert_by : A → List A → List A
  insert_by a [] = a ∷ []
  insert_by a (x ∷ xs) = if str_le (key a) (key x) then a ∷ x ∷ xs else x ∷ insert_by a xs

  unfoldable pub sort_by : List A → List A
  unfolding insert_by
  sort_by [] = []
  sort_by (x ∷ xs) = insert_by x (sort_by xs)

  -- No text is the key of two items.
  abbrev pub HasDistinctKeys : List A → Type 0
  HasDistinctKeys [] = Unit
  HasDistinctKeys (x ∷ xs) = All (λ y. key x ≢ key y) xs × HasDistinctKeys xs

  insert_by_comm :
      (a b : A) (xs : List A)
      → key a ≢ key b
      → insert_by a (insert_by b xs) ≡ insert_by b (insert_by a xs)
  unfolding insert_by
  insert_by_comm a b [] ne =
      ground (arith, str_le_total (key a) (key b), str_le_antisymm (key a) (key b))
  insert_by_comm a b (x ∷ xs) ne = ground (
    arith,
    str_le_total (key a) (key b),
    str_le_antisymm (key a) (key b),
    str_le_trans (key a) (key b) (key x),
    str_le_trans (key b) (key a) (key x),
    insert_by_comm a b xs,
  )

-- The same items in another order.
pub data Reordered {A : Type 0} : List A → List A → Type 0 where
  same : Reordered [] []
  under : {xs ys : List A} → (x : A) → Reordered xs ys → Reordered (x ∷ xs) (x ∷ ys)
  swapped : (x y : A) (xs : List A) → Reordered (x ∷ y ∷ xs) (y ∷ x ∷ xs)
  both : {xs ys zs : List A} → Reordered xs ys → Reordered ys zs → Reordered xs zs

pub All-Reordered :
    {A : Type 0} (P : A → Type 0) {xs ys : List A} → Reordered xs ys → All P xs → All P ys
All-Reordered P same h = h
All-Reordered P (under x r) h = (h.0, All-Reordered P r h.1)
All-Reordered P (swapped x y xs) h = (h.1.0, (h.0, h.1.1))
All-Reordered P (both r q) h = All-Reordered P q (All-Reordered P r h)

module _ {A : Type 0} (key : A → String) where
  pub HasDistinctKeys-Reordered :
      {xs ys : List A} → Reordered xs ys → HasDistinctKeys key xs → HasDistinctKeys key ys
  HasDistinctKeys-Reordered same d = d
  HasDistinctKeys-Reordered (under x r) d =
      (All-Reordered (λ y. key x ≢ key y) r d.0, HasDistinctKeys-Reordered r d.1)
  HasDistinctKeys-Reordered (swapped x y xs) d = ((λ e. d.0.0 (sym e), d.1.0), (d.0.1, d.1.1))
  HasDistinctKeys-Reordered (both r q) d =
      HasDistinctKeys-Reordered q (HasDistinctKeys-Reordered r d)

  -- With distinct keys the sorted list does not depend on the order before.
  pub sort_by-Reordered :
      {xs ys : List A} → Reordered xs ys → HasDistinctKeys key xs → sort_by key xs ≡ sort_by key ys
  unfolding sort_by
  sort_by-Reordered same d = refl
  sort_by-Reordered (under x r) d = ap (insert_by key x) (sort_by-Reordered r d.1)
  sort_by-Reordered (swapped x y xs) d = insert_by_comm key x y (sort_by key xs) d.0.0
  sort_by-Reordered (both r q) d =
      sort_by-Reordered r d ∙ sort_by-Reordered q (HasDistinctKeys-Reordered r d)

pub map-Reordered :
    {A B : Type 0} (f : A → B) {xs ys : List A} → Reordered xs ys → Reordered (map f xs) (map f ys)
map-Reordered f same = same
map-Reordered f (under x r) = under (f x) (map-Reordered f r)
map-Reordered f (swapped x y xs) = swapped (f x) (f y) (map f xs)
map-Reordered f (both r q) = both (map-Reordered f r) (map-Reordered f q)
