-- ===== src/Tests/Service.antt =====
-- The theorems on the service, at concrete inputs.
use total.Prelude.{none, ◌^◌, ◌≡◌, ◌↔◌, refl}
use total.Prelude.Int.{pos}
use total.Bytes.{text}
use total.Errors.{ok}
use total.Model.{TransactionResult}
use total.Service.Amount.{safe_float_to_int64}
use total.Service.Amount.Laws.{safe_float_to_int64_edge}
use total.Service.Requests.{TradeRequest, validate_trade}
use total.Service.Requests.Laws.{IsTradable, validate_trade_exact}
use total.Demo.{demo, demo_floats, demo_key, demo_contract}

-- Two shares with a slippage of 5%.
abbrev trade : TradeRequest demo
trade = record {
  user_public_key = demo_key;
  contract_id = demo_contract;
  outcome = text "YES";
  share_amount = 200;
  slippage = 5;
}

abbrev bought : TransactionResult
bought = record {
  xdr = text "prepared";
  description = text "Buy 2 YES tokens";
  sign_with = demo_key;
  submit_url = text "rpc";
}

abbrev sold : TransactionResult
sold = record bought { description = text "Sell 2 YES tokens" }

validate_trade_exact_example : (validate_trade demo trade ≡ none) ↔ IsTradable demo trade
validate_trade_exact_example = validate_trade_exact demo trade

safe_float_to_int64_edge_example :
    safe_float_to_int64 demo_floats (demo_floats.of_int (pos (2 ^ 63))) ≡ ok (pos (2 ^ 63))
safe_float_to_int64_edge_example = safe_float_to_int64_edge demo_floats (record {
  rounds_up = refl;
  number = refl;
  finite = refl;
  irreflexive = refl;
  above_least = refl;
})
