-- ===== src/Tests/Book.antt =====
-- hft/order_book.py on a book of two levels.
use ai_coinletgo.Prelude.{◌≡◌, refl, true, some, [], ◌∷◌}
use ai_coinletgo.Prelude.Int.{ℤ, pos, negsuc, int_eq, ◌+ℤ◌}
use ai_coinletgo.Prelude.Text.{Text, text, text_eq, upper}
use ai_coinletgo.Prelude.Dict.{lookup, insert}
use ai_coinletgo.Prelude.Result.{ok}
use ai_coinletgo.Decimal.{sum_from}
use ai_coinletgo.Decimal.Fixed.{fixed, fixed_mul, fixed_div, fixed-IsRounded}
use ai_coinletgo.Hft.OrderBook.{
  DiffOrderBook, DepthEvent, number, absent, rows, row, malformed_row, applied, stale, levels,
  apply_event, apply_numbered, apply_updates, apply_rows, follows, bridges, commit, metrics,
  HftBookMetrics,
}
use ai_coinletgo.Hft.OrderBook.Levels.{levels-IsLevels, settle, last_quantity}
use ai_coinletgo.Hft.OrderBook.Sequence.{IsBook, Outcome, apply_event-Outcome}
use ai_coinletgo.Hft.OrderBook.Feed.{
  Feed, done, next, bid_rows, IsChain, apply_event-IsBook, apply_event_redelivered, Feed-lookup,
  Feed-IsChain,
}
use ai_coinletgo.Hft.OrderBook.Quotes.{IsQuote, metrics-IsQuote}
use ai_coinletgo.Tests.{units}

abbrev pub symbol : Text
symbol = text "BTCUSDT"

abbrev pub synced : DiffOrderBook ℤ
synced = record {
  symbol = symbol;
  depth_levels = 20;
  bids = levels (rows (row (units 100) (units 1) ∷ []));
  asks = levels (rows (row (units 101) (units 1) ∷ []));
  last_update_id = some (pos 5);
  has_applied_event = true;
  event_time_ms = pos 0;
  received_monotonic = 0;
}

pub synced-IsBook : IsBook synced
unfolding upper
synced-IsBook = record {
  bids_ok = levels-IsLevels _;
  asks_ok = levels-IsLevels _;
  upper_symbol = refl;
}

-- Follows the book, takes the bid at 100 away and sets one at 99.
abbrev pub update : DepthEvent ℤ
update = record {
  event_symbol = some symbol;
  first_id = number (pos 6);
  final_id = number (pos 7);
  previous_id = number (pos 5);
  bid_updates = rows (row (units 100) (units 0) ∷ malformed_row ∷ row (units 99) (units 2) ∷ []);
  ask_updates = rows [];
  event_time = absent;
  transaction_time = number (pos 9);
}

abbrev followed : DiffOrderBook ℤ
followed = (apply_event synced update 3).1

update_applied : apply_event synced update 3 ≡ (applied, followed)
unfolding apply_event apply_numbered apply_updates apply_rows follows bridges commit upper
update_applied = refl

update-followed : Feed synced (update ∷ []) followed
update-followed = next 3 update_applied done

abbrev pub quote : HftBookMetrics ℤ
quote = record {
  symbol = symbol;
  best_bid = units 100;
  best_ask = units 101;
  mid_price = pos 10_050_000_000;
  microprice = pos 10_049_751_244;
  spread_pct = pos 995_025;
  bid_depth_usdt = units 100;
  ask_depth_usdt = units 101;
  imbalance = negsuc 497_512;
  last_update_id = pos 5;
  event_time_ms = pos 0;
  received_monotonic = 0;
}

pub synced_quoted : metrics synced ≡ ok quote
unfolding metrics levels fixed_mul fixed_div ◌+ℤ◌ sum_from insert
synced_quoted = refl

metrics-IsQuote_example : IsQuote fixed-IsRounded synced quote
metrics-IsQuote_example = metrics-IsQuote fixed-IsRounded synced quote synced-IsBook synced_quoted

Feed-lookup_example :
    lookup (units 99) followed.bids
    ≡ settle (last_quantity (units 99) (bid_rows (update ∷ []))) (lookup (units 99) synced.bids)
Feed-lookup_example =
    Feed-lookup (units 99) synced (update ∷ []) followed synced-IsBook update-followed

Feed-IsChain_example : IsChain (pos 5) (update ∷ [])
Feed-IsChain_example = Feed-IsChain synced (update ∷ []) followed refl refl update-followed

apply_event-Outcome_example : Outcome synced update (apply_event synced update 3)
apply_event-Outcome_example = apply_event-Outcome synced update 3

apply_event-IsBook_example : IsBook (apply_event synced update 3).1
apply_event-IsBook_example = apply_event-IsBook synced update 3 synced-IsBook

apply_event_redelivered_example : apply_event followed update 4 ≡ (stale, followed)
apply_event_redelivered_example = apply_event_redelivered synced update 3 4 followed update_applied
