-- ===== src/Tests/Market.antt =====
-- The theorems on prices, events and the factory, at concrete inputs.
use total.Soroban.Invoker.{build_invoke_tx}
use total.Stellar.Queries.{
  build_get_winning_outcome_tx, build_get_state_tx, build_get_metadata_hash_tx,
}
use total.Stellar.Horizon.{account_error, get_account}
use total.Stellar.Builder.{require_invoker}
use total.Soroban.ScVal.{
  decode_u32, narrow, to_int64, to_uint64, elements, decode_i128, encode_i128, decode_bool,
}
use total.Soroban.Invoker.Fee.{wrap_int64}
use total.Soroban.Client.{
  call_for, check_response, check_simulation, next_id, post_body, read_exchange,
  simulate_transaction, call,
}
use total.Soroban.Address.{decode_string, copy32, parse_return_value, decode_vec}
use total.Service.Reading.{read_contract}
use total.Prelude.{
  replicate, ℕ, true, false, some, none, List, [], ◌∷◌, map, All, ◌≡◌, ◌≢◌, ◌⊎◌, refl,
}
use total.Prelude.Int.{pos, ◌+ℤ◌}
use total.Bytes.{Bytes, text, bytes_eq, decimal_fuel, show_nat, utf8}
use total.Errors.{Error, ok, err}
use total.Model.{one_float}
use total.Soroban.Types.{ContractEvent, rpc_error_text, u32_to_outcome}
use total.Lmsr.{
  Calculator, CostQuote, price, calculate_cost, calculate_sell_return, after_purchase, quote,
}
use total.Lmsr.Laws.{calculate_sell_return-calculate_cost, quote-IsConsistent}
use total.Service.Events.{TradeEvent, gather}
use total.Service.Events.Laws.{readable, attempted, gather_exact}
use total.Service.Factory.{
  MarketState, at_least_one_percent, calculate_prices, decode_state, get_winning_outcome,
  normalized, winning_outcome_of, fetch_market_state, get_metadata_hash,
}
use total.Service.Factory.Laws.{IsOf, fetch_market_state-IsOf}
use total.Service.States.{
  get_market_states, conclude_states, get_cached, run_all, run_one, set_at, valid_states,
}
use total.Service.States.Laws.{IsSound, Sublist, get_market_states-Sublist}
use total.Handler.ChartPoints.{events_to_chart_points}
use total.Handler.ChartPoints.Laws.{IsShown, events_to_chart_points-IsShown}
use total.Demo.{demo, demo_floats, demo_factory, demo_cache, demo_contract, demo_state}

abbrev calculator : Calculator demo_floats
calculator = record { b = 10000 }

calculate_sell_return-calculate_cost_example :
    calculate_sell_return demo_floats calculator 1200 1000 200 (text "YES") ≡ ok 200
unfolding calculate_cost bytes_eq text after_purchase read_contract decode_string decimal_fuel
    show_nat utf8 ◌+ℤ◌ at_least_one_percent calculate_prices decode_state get_winning_outcome
    normalized winning_outcome_of copy32 call_for check_response check_simulation next_id post_body
    read_exchange wrap_int64 decode_u32 narrow to_int64 to_uint64 rpc_error_text u32_to_outcome
    require_invoker account_error build_get_winning_outcome_tx
calculate_sell_return-calculate_cost_example =
    calculate_sell_return-calculate_cost demo_floats calculator 1000 1000 200 200 (text "YES")
      (record { undone = refl; not_negative = refl; enough = refl })
      (record { undone = refl; not_negative = refl; enough = refl }) refl

abbrev quoted : CostQuote demo_floats
quoted = record { cost = 200; price_per_share = 100; new_probability = 54 }

quote-IsConsistent_example :
    (calculate_cost demo_floats calculator 1000 1000 200 (text "YES") ≡ ok 200)
    × (100 ≡ demo_floats.div 200 200)
    × ((p : ℕ) × (q : ℕ) × (price demo_floats calculator
            (after_purchase demo_floats 1000 1000 200 (text "YES")).0
            (after_purchase demo_floats 1000 1000 200 (text "YES")).1
          ≡ ok (p, q))
        × (((bytes_eq (text "YES") (text "YES") ≡ true) × (54 ≡ p))
            ⊎ ((bytes_eq (text "YES") (text "NO") ≡ true)
                × (54 ≡ demo_floats.sub (one_float demo_floats) p))))
unfolding quote calculate_cost bytes_eq text price after_purchase
quote-IsConsistent_example =
    quote-IsConsistent demo_floats calculator 1000 1000 200 (text "YES") quoted refl

-- An event of a purchase, and one whose topics are not those of a trade.
abbrev purchase : ContractEvent
purchase = record {
  kind = text "contract";
  ledger = 7;
  ledger_closed_at = text "2026";
  contract_id = demo_contract;
  id = text "1";
  paging_token = [];
  in_successful_contract_call = true;
  topic = text "B" ∷ text "U" ∷ text "O" ∷ [];
  value = text "Q";
}

abbrev strange : ContractEvent
strange = record purchase { topic = [] }

gather_exact_example :
    ((l : List (TradeEvent demo))
      → gather demo (purchase ∷ strange ∷ []) ≡ ok l
      → l ≡ readable demo (purchase ∷ strange ∷ []))
    × (readable demo (purchase ∷ strange ∷ []) ≢ []
        → gather demo (purchase ∷ strange ∷ []) ≡ ok (readable demo (purchase ∷ strange ∷ [])))
    × (readable demo (purchase ∷ strange ∷ []) ≡ []
        → attempted demo (purchase ∷ strange ∷ []) ≢ 0
        → (e : Error) × (gather demo (purchase ∷ strange ∷ []) ≡ err e))
gather_exact_example = gather_exact demo (purchase ∷ strange ∷ [])

abbrev bought : TradeEvent demo
bought = record {
  kind = text "buy";
  user = text "u";
  outcome = text "YES";
  amount = 300;
  cost = 50;
  timestamp = 5;
  ledger = 7;
}

events_to_chart_points-IsShown_example :
    (map (λ p. p.timestamp) (events_to_chart_points demo (bought ∷ [])) ≡ 5 ∷ [])
    × All (IsShown demo) (events_to_chart_points demo (bought ∷ []))
events_to_chart_points-IsShown_example =
    events_to_chart_points-IsShown demo (bought ∷ [])
      (record { least = refl; greatest = refl; between = refl })

abbrev fetched : MarketState demo
fetched = record {
  contract_id = demo_contract;
  yes_sold = pos 30_000_000;
  no_sold = pos 5_000_000;
  pool = pos 9_000_000;
  resolved = false;
  winning_outcome = [];
  metadata_hash = [];
  price_yes = 85;
  price_no = 14;
}

fetch_market_state-IsOf_example : IsOf demo demo_factory demo_contract fetched
unfolding fetch_market_state build_get_state_tx get_account build_invoke_tx read_contract
    simulate_transaction call text parse_return_value decode_vec elements decode_i128 encode_i128
    decode_bool get_metadata_hash build_get_metadata_hash_tx decode_string decimal_fuel show_nat
    utf8 ◌+ℤ◌ at_least_one_percent calculate_prices decode_state get_winning_outcome normalized
    winning_outcome_of copy32 call_for check_response check_simulation next_id post_body
    read_exchange wrap_int64 decode_u32 narrow to_int64 to_uint64 rpc_error_text u32_to_outcome
    require_invoker account_error build_get_winning_outcome_tx
fetch_market_state-IsOf_example =
    fetch_market_state-IsOf demo demo_factory demo_contract (demo_state (7 ∷ 7 ∷ []))
      {t = record { request_id = 2; world = [] }} refl

abbrev second_market : Bytes
second_market = b'C' ∷ replicate 55 b'B'

demo_cache-IsSound : IsSound demo demo_cache
unfolding IsSound
demo_cache-IsSound id w st e = absurd (none_ne_some e)
  where
    none_ne_some : none ≡ some st → ⊥
    none_ne_some d = cc

-- The second market is read first, and then the server answers no more.
get_market_states-Sublist_example :
    Sublist (second_market ∷ []) (demo_contract ∷ second_market ∷ [])
unfolding get_market_states fetch_market_state build_get_state_tx get_account build_invoke_tx
    read_contract simulate_transaction call text parse_return_value decode_vec elements decode_i128
    encode_i128 decode_bool get_metadata_hash build_get_metadata_hash_tx decimal_fuel show_nat utf8
    ◌+ℤ◌ at_least_one_percent calculate_prices decode_state get_winning_outcome normalized
    winning_outcome_of conclude_states get_cached run_all run_one set_at valid_states copy32
    decode_string call_for check_response check_simulation next_id post_body read_exchange
    wrap_int64 decode_u32 narrow to_int64 to_uint64 rpc_error_text u32_to_outcome require_invoker
    account_error build_get_winning_outcome_tx
get_market_states-Sublist_example =
    get_market_states-Sublist demo demo_factory demo_cache (1 ∷ 0 ∷ [])
      (demo_contract ∷ second_market ∷ []) (demo_state (7 ∷ 7 ∷ []))
      (record fetched { contract_id = second_market } ∷ []) demo_cache-IsSound refl
