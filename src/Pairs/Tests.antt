-- ===== src/Pairs/Tests.antt =====
-- Four online products of two base coins, and one that is offline.
use Prim.Native.String.{String, ◌++◌ as str_append}
use vendor.Base.{
  ℕ, ◌≡◌, ◌↔◌, refl, List, [], ◌∷◌, none, some, false, leb, if◌then◌else◌, filter, length,
  map_option, ok, err,
}
use vendor.Base.Map.{string_eq}
use vendor.Base.Order.{Reordered, swapped}
use vendor.VendorClient.{Answer, not_sent, answered, requested, slept, Trace}
use vendor.Pairs.{
  BitgetProduct, OutputPair, Stats, Walk, select_pairs_with_usdc_priority, list_pairs,
  initial_stats, parse_u8, solidity_pair,
}
use vendor.Pairs.Groups.{Groups, has_base}
use vendor.Pairs.Selection.{or_else, to_list, find_pair, select_pairs_with_usdc_priority-find_pair}
use vendor.Pairs.Walks.{Reordered-refl, list_pairs-walk}
use vendor.Pairs.Changes.{added, removed, changed_quote, new_file, check_for_changes}
use vendor.Pairs.Changes.Unchanged.{last_pair, quote_of, check_for_changes-unchanged}
use vendor.Pairs.Fetch.{
  BitgetResponse, exponential_backoff, fetch_bitget_products, up_to_date, written, main,
}

abbrev product : (base_coin quote_coin status : String) → BitgetProduct
product base_coin quote_coin status = record {
  symbol = str_append base_coin quote_coin;
  base_coin = base_coin;
  quote_coin = quote_coin;
  min_trade_amount = "0.0001";
  max_trade_amount = "10000";
  taker_fee_rate = "0.001";
  maker_fee_rate = "0.001";
  price_precision = "2";
  quantity_precision = "400";
  status = status;
  min_trade_usdt = none;
  buy_limit_price_ratio = none;
  sell_limit_price_ratio = none;
}

abbrev listed : List BitgetProduct
listed =
    product "ETH" "USDT" "online"
    ∷ product "BTC" "USDT" "online"
    ∷ product "BTC" "EUR" "online"
    ∷ product "BTC" "USDC" "online"
    ∷ product "ADA" "USDC" "halt"
    ∷ []

abbrev as_stored : Walk
as_stored m = m

-- The first two groups change places.
abbrev crossed : Walk
crossed [] = []
crossed (x ∷ []) = x ∷ []
crossed (x ∷ y ∷ m) = y ∷ x ∷ m

crossed-Reordered : (m : Groups) → Reordered m (crossed m)
crossed-Reordered [] = Reordered-refl []
crossed-Reordered (x ∷ []) = Reordered-refl (x ∷ [])
crossed-Reordered (x ∷ y ∷ m) = swapped x y m

abbrev output : ℕ → (base_coin quote_coin : String) → OutputPair
output id base_coin quote_coin = record {
  id = id;
  symbol = str_append base_coin (str_append "/" quote_coin);
  base_coin = base_coin;
  quote_coin = quote_coin;
  min_trade_amount = "0.0001";
  price_scale = 2;
  quantity_scale = 4;
}

abbrev expected : List OutputPair
expected = output 1 "BTC" "USDC" ∷ output 2 "ETH" "USDT" ∷ []

abbrev expected_stats : Stats
expected_stats = record {
  total_fetched = 5;
  online_pairs = 4;
  usdc_selected = 1;
  usdt_selected = 1;
  usdt_with_usdc_available = 1;
  excluded_offline = 1;
  excluded_other_quote = 1;
}

listed_pairs : list_pairs crossed listed ≡ (expected, expected_stats)
unfolding list_pairs
listed_pairs = refl

list_pairs-walk_example : (list_pairs as_stored listed).0 ≡ (list_pairs crossed listed).0
list_pairs-walk_example = list_pairs-walk as_stored crossed listed Reordered-refl crossed-Reordered

select_pairs_with_usdc_priority-find_pair_example :
    filter (has_base "BTC") (select_pairs_with_usdc_priority crossed listed (initial_stats 5)).0
    ≡ to_list (or_else (find_pair "BTC" "USDC" listed) (find_pair "BTC" "USDT" listed))
select_pairs_with_usdc_priority-find_pair_example =
    select_pairs_with_usdc_priority-find_pair crossed listed (initial_stats 5) "BTC"
      crossed-Reordered

-- The same pairs with another scale.
abbrev rescaled : List OutputPair
rescaled = record (output 1 "BTC" "USDC") { price_scale = 3 } ∷ output 2 "ETH" "USDT" ∷ []

check_for_changes-unchanged_example : (check_for_changes (some (ok rescaled)) expected ≡ ok []) ↔ (
    (b : String)
    → map_option quote_of (last_pair b none rescaled)
      ≡ map_option quote_of (last_pair b none expected))
check_for_changes-unchanged_example = check_for_changes-unchanged rescaled expected

changes :
    (check_for_changes (some (ok rescaled)) expected ≡ ok [])
    × (check_for_changes none expected ≡ ok (new_file ∷ []))
    × (check_for_changes (some (ok (output 1 "ADA" "USDC" ∷ output 2 "BTC" "USDT" ∷ []))) expected
        ≡ ok (added "ETH/USDT" 2 ∷ removed "ADA/USDC" 1 ∷ changed_quote "USDT" "USDC" "BTC" ∷ []))
unfolding check_for_changes
changes = (refl, refl, refl)

scales :
    (parse_u8 "255" ≡ some 255)
    × (parse_u8 "256" ≡ none)
    × (parse_u8 "+7" ≡ some 7)
    × (parse_u8 "+" ≡ none)
    × (parse_u8 "" ≡ none)
    × (parse_u8 "1x" ≡ none)
unfolding parse_u8
scales = (refl, refl, refl, refl, refl, refl)

abbrev success : BitgetResponse
success = record { code = "00000"; msg = ""; products = some listed }

-- A limit on the rate, then an error, then an answer.
abbrev server : Trace → Answer BitgetResponse
server trace =
    if leb 4 (length trace)
    then answered 200 none (ok success)
    else if leb 2 (length trace)
    then not_sent false "refused"
    else answered 429 none (err "no JSON")

abbrev url : String
url = "https://api.bitget.com/api/v2/spot/public/symbols"

abbrev print_status : ℕ → String
print_status n = "status"

fetched :
    fetch_bitget_products print_status server []
    ≡ (ok listed, requested url ∷ slept 1000 ∷ requested url ∷ slept 1000 ∷ requested url ∷ [])
unfolding fetch_bitget_products
fetched = refl

unfetched :
    (fetch_bitget_products print_status (λ t. answered 500 none (err "no JSON")) []).0
    ≡ err "API returned error status: status"
unfolding fetch_bitget_products
unfetched = refl

delays :
    (exponential_backoff 1 ≡ 500)
    × (exponential_backoff 3 ≡ 2000)
    × (exponential_backoff 200 ≡ 18446744073709551615)
unfolding exponential_backoff
delays = (refl, refl, refl)

runs :
    (main print_status server crossed
        (some (ok rescaled))
        (record { force = false; dry_run = false })
      ≡ up_to_date expected_stats)
    × (main print_status server crossed none (record { force = false; dry_run = false })
        ≡ written expected_stats expected
            (solidity_pair (output 1 "BTC" "USDC") ∷ solidity_pair (output 2 "ETH" "USDT") ∷ []))
unfolding main
runs = (refl, refl)
