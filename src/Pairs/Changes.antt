-- ===== src/Pairs/Changes.antt =====
-- `check_for_changes` of bin/scripts/src/bin/list_bitget_pairs.rs. The file of the last run is a
-- parameter: it is absent, cannot be read, or lists pairs.
pub mod Unchanged
use Prim.Native.String.{String}
use vendor.Base.{
  ℕ, List, [], ◌∷◌, ◌++◌, Option, none, some, Bool, true, false, not, if◌then◌else◌, Result, ok,
  err,
}
use vendor.Base.Map.{Map, string_eq, ◌==◌, lookup, insert, contains_key}
use vendor.Pairs.{OutputPair}

-- A line of the list of changes, with what its text is made of.
pub data Change : Type 0 where
  new_file : Change
  added : (symbol : String) (id : ℕ) → Change
  removed : (symbol : String) (id : ℕ) → Change
  changed_quote : (old new base : String) → Change

abbrev pub ByBase : Type 0
ByBase = Map String OutputPair

-- `collect` into a hash map: of two pairs with one base coin the later one stays.
unfoldable pub by_base_loop : List OutputPair → ByBase → ByBase
by_base_loop [] m = m
by_base_loop (p ∷ pairs) m = by_base_loop pairs (insert p.base_coin p m)

unfoldable pub by_base : List OutputPair → ByBase
unfolding by_base_loop
by_base pairs = by_base_loop pairs []

-- The pairs of one map whose base coin the other lacks, as changes.
unfoldable pub missing : (change : OutputPair → Change) → (other : ByBase) → ByBase → List Change
missing change other [] = []
missing change other ((base, pair) ∷ m) =
    let rest = missing change other m in
    if contains_key base other then rest else change pair ∷ rest

-- A pair whose base coin is there with another quote coin.
abbrev pub quote_change : (base : String) → (new : OutputPair) → Option OutputPair → List Change
quote_change base new none = []
quote_change base new (some existing) =
    if existing.quote_coin == new.quote_coin
    then []
    else changed_quote existing.quote_coin new.quote_coin base ∷ []

unfoldable pub modified : (existing : ByBase) → ByBase → List Change
modified existing [] = []
modified existing ((base, new) ∷ m) =
    quote_change base new (lookup base existing) ++ modified existing m

unfoldable pub all_changes : (existing new : ByBase) → List Change
unfolding missing modified
all_changes existing new =
    missing (λ p. added p.symbol p.id) existing new
    ++ (missing (λ p. removed p.symbol p.id) new existing ++ modified existing new)

unfoldable pub check_for_changes :
    Option (Result (List OutputPair) String) → List OutputPair → Result (List Change) String
unfolding by_base all_changes
check_for_changes none new_pairs = ok (new_file ∷ [])
check_for_changes (some (err e)) new_pairs = err e
check_for_changes (some (ok existing_pairs)) new_pairs =
    ok (all_changes (by_base existing_pairs) (by_base new_pairs))
