-- ===== src/Pairs.antt =====
-- The script bin/scripts/src/bin/list_bitget_pairs.rs: its data, the choice of a pair for each base
-- coin, and the ids.
pub mod Fetch
pub mod Changes
pub mod Selection
pub mod Walks
pub mod Groups
mod Tests
use Prim.Native.Char.{Char, code}
use Prim.Native.String.{String, ◌++◌ as str_append}
use vendor.Base.{
  ℕ, zero, suc, ◌+◌, ◌-◌, ◌*◌, ◌%◌, List, [], ◌∷◌, ◌++◌, Option, none, some, Bool, true, false,
  ◌&&◌, ◌||◌, leb, nat_beq, if◌then◌else◌, length, unwrap_or,
}
use vendor.Base.Map.{Map, string_eq, ◌==◌}
use vendor.Base.Order.{sort_by}

pub record BitgetProduct : Type 0 where
  pub symbol : String
  pub base_coin : String
  pub quote_coin : String
  pub min_trade_amount : String
  pub max_trade_amount : String
  pub taker_fee_rate : String
  pub maker_fee_rate : String
  pub price_precision : String
  pub quantity_precision : String
  pub status : String
  pub min_trade_usdt : Option String
  pub buy_limit_price_ratio : Option String
  pub sell_limit_price_ratio : Option String

pub record OutputPair : Type 0 where
  pub id : ℕ
  pub symbol : String
  pub base_coin : String
  pub quote_coin : String
  pub min_trade_amount : String
  pub price_scale : ℕ
  pub quantity_scale : ℕ

pub record SolidityPair : Type 0 where
  pub id : ℕ
  pub symbol : String
  pub base_coin : String
  pub quote_coin : String

pub record Stats : Type 0 where
  pub total_fetched : ℕ
  pub online_pairs : ℕ
  pub usdc_selected : ℕ
  pub usdt_selected : ℕ
  pub usdt_with_usdc_available : ℕ
  pub excluded_offline : ℕ
  pub excluded_other_quote : ℕ

abbrev pub initial_stats : (total_fetched : ℕ) → Stats
initial_stats total_fetched = record {
  total_fetched = total_fetched;
  online_pairs = 0;
  usdc_selected = 0;
  usdt_selected = 0;
  usdt_with_usdc_available = 0;
  excluded_offline = 0;
  excluded_other_quote = 0;
}

-- The filter for online pairs, which counts the others.
unfoldable pub online_loop :
    List BitgetProduct → List BitgetProduct × Stats → List BitgetProduct × Stats
online_loop [] found = found
online_loop (p ∷ products) (online, stats) = online_loop products (
    if p.status == "online"
    then (online ++ p ∷ [], stats)
    else (online, record stats { excluded_offline = stats.excluded_offline + 1 }))

-- `by_base.entry(base_coin).or_default().push(product)`
unfoldable pub push_product :
    BitgetProduct → Map String (List BitgetProduct) → Map String (List BitgetProduct)
push_product p [] = (p.base_coin, p ∷ []) ∷ []
push_product p ((base, ps) ∷ groups) =
    if base == p.base_coin
    then (base, ps ++ p ∷ []) ∷ groups
    else (base, ps) ∷ push_product p groups

abbrev pub has_listed_quote : BitgetProduct → Bool
has_listed_quote p = p.quote_coin == "USDC" || p.quote_coin == "USDT"

unfoldable pub group_loop :
    List BitgetProduct
    → Map String (List BitgetProduct) × Stats
    → Map String (List BitgetProduct) × Stats
unfolding push_product
group_loop [] found = found
group_loop (p ∷ products) (groups, stats) = group_loop products (
    if has_listed_quote p
    then (push_product p groups, stats)
    else (groups, record stats { excluded_other_quote = stats.excluded_other_quote + 1 }))

-- `pairs.iter().find(|p| p.quote_coin == quote)`
abbrev pub find_quote : String → List BitgetProduct → Option BitgetProduct
find_quote quote [] = none
find_quote quote (p ∷ ps) = if p.quote_coin == quote then some p else find_quote quote ps

-- The match on what is found.
unfoldable pub select :
    (usdc usdt : Option BitgetProduct) → List BitgetProduct × Stats → List BitgetProduct × Stats
select (some usdc) (some usdt) (selected, stats) = (
  selected ++ usdc ∷ [],
  record stats {
    usdc_selected = stats.usdc_selected + 1;
    usdt_with_usdc_available = stats.usdt_with_usdc_available + 1;
  },
)
select (some usdc) none (selected, stats) =
    (selected ++ usdc ∷ [], record stats { usdc_selected = stats.usdc_selected + 1 })
select none (some usdt) (selected, stats) =
    (selected ++ usdt ∷ [], record stats { usdt_selected = stats.usdt_selected + 1 })
select none none (selected, stats) = (selected, stats)

unfoldable pub select_loop :
    Map String (List BitgetProduct) → List BitgetProduct × Stats → List BitgetProduct × Stats
unfolding select
select_loop [] found = found
select_loop ((base, pairs) ∷ groups) found =
    select_loop groups (select (find_quote "USDC" pairs) (find_quote "USDT" pairs) found)

-- How the hash map happens to be walked.
abbrev pub Walk : Type 0
Walk = Map String (List BitgetProduct) → Map String (List BitgetProduct)

unfoldable pub select_pairs_with_usdc_priority :
    Walk → List BitgetProduct → Stats → List BitgetProduct × Stats
unfolding group_loop select_loop
select_pairs_with_usdc_priority walk products stats =
    let (groups, stats') = group_loop products ([], stats) in select_loop (walk groups) ([], stats')

-- `str::parse::<u8>`: digits after an optional plus sign, at most 255.
unfoldable pub parse_digits : String → (value : ℕ) → Option ℕ
parse_digits String.[] value = some value
parse_digits (String.◌∷◌ c s) value =
    let value' = value * 10 + (code c - 48) in
    let rest = parse_digits s value' in
    if leb 48 (code c) && leb (code c) 57 && leb value' 255 then rest else none

unfoldable pub parse_u8 : String → Option ℕ
unfolding parse_digits
parse_u8 String.[] = none
parse_u8 (String.◌∷◌ c String.[]) = parse_digits (String.◌∷◌ c String.[]) 0
parse_u8 (String.◌∷◌ c (String.◌∷◌ d s)) =
    if nat_beq (code c) 43
    then parse_digits (String.◌∷◌ d s) 0
    else parse_digits (String.◌∷◌ c (String.◌∷◌ d s)) 0

-- The pair at an index, whose id is the next number as a `u32`.
unfoldable pub output_pair : ℕ → BitgetProduct → OutputPair
unfolding parse_u8
output_pair idx product = record {
  id = (idx + 1) % 4294967296;
  symbol = str_append product.base_coin (str_append "/" product.quote_coin);
  base_coin = product.base_coin;
  quote_coin = product.quote_coin;
  min_trade_amount = product.min_trade_amount;
  price_scale = unwrap_or (parse_u8 product.price_precision) 2;
  quantity_scale = unwrap_or (parse_u8 product.quantity_precision) 4;
}

-- `enumerate` and `map`, from the index `idx` on.
unfoldable pub number_from : (idx : ℕ) → List BitgetProduct → List OutputPair
unfolding output_pair
number_from idx [] = []
number_from idx (p ∷ ps) = output_pair idx p ∷ number_from (idx + 1) ps

abbrev pub base_of : BitgetProduct → String
base_of p = p.base_coin

-- From the fetched products to the output, with the statistics.
unfoldable pub list_pairs : Walk → List BitgetProduct → List OutputPair × Stats
unfolding online_loop select_pairs_with_usdc_priority sort_by number_from
list_pairs walk products =
    let (online, stats) = online_loop products ([], initial_stats (length products)) in
    let (selected, stats') =
      select_pairs_with_usdc_priority walk online (record stats { online_pairs = length online }) in
    (number_from 0 (sort_by base_of selected), stats')

unfoldable pub solidity_pair : OutputPair → SolidityPair
solidity_pair p = record {
  id = p.id;
  symbol = p.symbol;
  base_coin = p.base_coin;
  quote_coin = p.quote_coin;
}
