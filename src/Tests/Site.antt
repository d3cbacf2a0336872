-- ===== src/Tests/Site.antt =====
-- The theorems on the handlers of requests, at concrete inputs.
use total.Service.Deploy.Laws.{validate_deploy_exact}
use total.Service.Deploy.{
  DeployMarketRequest, min_funding, build_deploy_market_tx_for, validate_deploy, scaled,
}
use total.Ipfs.Cid.{validate_cid, matches_v0, matches_v1, every, is_base58}
use total.Stellar.Queries.{build_get_quote_tx, build_get_sell_quote_tx}
use total.Handler.Forms.{
  trade_form, require_address, require_outcome, require_positive, require_slippage,
}
use total.Stellar.Builder.{
  require_invoker, simulate_and_prepare_tx, build_buy_tx, build_sell_tx, build_deploy_market_tx,
}
use total.Soroban.ScVal.{
  decode_i128, elements, encode_i128, encode_u32, narrow, to_int64, to_uint64,
}
use total.Soroban.Invoker.Fee.{update_fee, wrap_int64}
use total.Service.Reading.{read_contract, decode_pair}
use total.Soroban.Invoker.{
  build_invoke_tx, add_resource_fee, attach_auth, envelope_transaction, parse_auths,
  parse_soroban_data, prepare, simulate_and_prepare,
}
use total.Stellar.Horizon.{get_account, account_error}
use total.Soroban.Types.{outcome_to_u32, rpc_error_text}
use total.Service.Amount.{safe_float_to_int64}
use total.Soroban.Address.{
  validate_contract_id, copy32, decode_vec, encode_address, parse_return_value,
}
use total.Prelude.{
  ◌↔◌, ◌≢◌, true, false, none, some, [], ◌∷◌, ◌≡◌, ◌≤◌, ◌^◌, ◌*◌, length, refl, inl,
}
use total.Prelude.Int.{pos, ◌+ℤ◌}
use total.Bytes.{
  Bytes, text, bytes_eq, utf8, trim_space, has_prefix, decimal_fuel, digits_value, last_space_len,
  parse_digits, parse_int, parse_reason, show_int, show_nat, signed, space_len, trim_fuel, to_upper,
  contains, index,
}
use total.Model.{
  TransactionResult, validate_stellar_public_key, is_valid, parse_outcome, zero_float,
}
use total.Config.{is_testnet, network_name}
use total.Soroban.Client.{
  State, call, call_for, check_response, check_simulation, next_id, post_body, read_exchange,
  simulate_transaction,
}
use total.Service.Requests.{TradeRequest, validate_trade, validate_parties}
use total.Service.Quotes.{get_quote, get_sell_quote}
use total.Service.Market.{
  max_cost, min_return, scaled_amount, prepared, build_buy_tx_for, build_sell_tx_for,
}
use total.Service.Market.Laws.{IsTrade, IsBuyCall, IsSellCall}
use total.Service.Factory.{MarketState}
use total.Handler.Web.{
  Page, Request, transaction_page, common, set_account_id_cookie, account_id_from_cookie,
}
use total.Handler.Trade.{
  handle_build_buy_tx, transaction_of, handle_build_deploy_tx, handle_build_sell_tx, deploy_form,
  configured, require_hash,
}
use total.Handler.Trade.Laws.{
  IsTradeForm, handle_build_buy_tx-IsTrade, handle_build_sell_tx-IsTrade,
}
use total.Handler.Trade.Deploying.{IsDeployed, handle_build_deploy_tx-IsDeployment}
use total.Handler.Account.{handle_mtl_wallet, uri_prefix, handle_set_account}
use total.Handler.Account.Laws.{
  IsSafeBody, handle_mtl_wallet-IsSafe, account_id_from_cookie-handle_set_account,
}
use total.Handler.Views.{build_market_views}
use total.Handler.Views.Laws.{IsAt, build_market_views-IsAt}
use total.Demo.{demo, demo_floats, demo_service, demo_factory, demo_key, demo_contract, demo_state}
use total.Demo.Site.{demo_web, demo_handler, demo_request, demo_form}

-- The page of a transaction of this market, or of a new one.
abbrev shown : Bytes → Bytes → Page demo
shown description market =
    transaction_page
      (record {
        xdr = text "prepared";
        description = description;
        sign_with = demo_key;
        submit_url = text "rpc";
      })
      market (text "Public") (common demo demo_web demo_handler demo_request "markets")

abbrev after_trade : State demo
after_trade = record { request_id = 2; world = [] }

handle_build_buy_tx-IsTrade_example :
    (q : TradeRequest demo) × (result : TransactionResult) × IsTradeForm demo demo_request q
    × (transaction_of demo demo_web demo_handler demo_request demo_contract
          (common demo demo_web demo_handler demo_request "markets")
          result
        ≡ shown (text "Buy 2 YES tokens") demo_contract)
    × IsTrade demo demo_service q
        (get_quote demo demo_service q.contract_id q.outcome q.share_amount)
        (λ quote. quote.cost)
        (λ a. demo_floats.mul a (demo_floats.add (demo_floats.of_int (pos 1)) q.slippage))
        (IsBuyCall demo demo_service q)
        (demo_state (7 ∷ 7 ∷ []))
        result
        after_trade
unfolding validate_trade validate_stellar_public_key trim_space has_prefix text validate_contract_id
    is_valid bytes_eq scaled_amount safe_float_to_int64 outcome_to_u32 get_account build_invoke_tx
    read_contract decimal_fuel digits_value last_space_len parse_digits parse_int parse_reason
    show_int show_nat signed space_len trim_fuel utf8 prepared decode_pair validate_parties copy32
    decode_vec encode_address parse_return_value call call_for check_response check_simulation
    next_id post_body read_exchange simulate_transaction update_fee wrap_int64 add_resource_fee
    attach_auth envelope_transaction parse_auths parse_soroban_data prepare simulate_and_prepare
    decode_i128 elements encode_i128 encode_u32 narrow to_int64 to_uint64 rpc_error_text
    require_invoker simulate_and_prepare_tx account_error trade_form parse_outcome to_upper
    demo_form require_address require_outcome require_positive require_slippage
    account_id_from_cookie network_name contains index ◌+ℤ◌ handle_build_buy_tx build_buy_tx_for
    get_quote build_get_quote_tx max_cost build_buy_tx
handle_build_buy_tx-IsTrade_example =
    handle_build_buy_tx-IsTrade demo demo_web demo_handler demo_request (demo_state (7 ∷ 7 ∷ []))
      refl

handle_build_sell_tx-IsTrade_example :
    (q : TradeRequest demo) × (result : TransactionResult) × IsTradeForm demo demo_request q
    × (transaction_of demo demo_web demo_handler demo_request demo_contract
          (common demo demo_web demo_handler demo_request "markets")
          result
        ≡ shown (text "Sell 2 YES tokens") demo_contract)
    × IsTrade demo demo_service q
        (get_sell_quote demo demo_service q.contract_id q.outcome q.share_amount)
        (λ quote. quote.return_amount)
        (λ a. demo_floats.mul a (demo_floats.sub (demo_floats.of_int (pos 1)) q.slippage))
        (IsSellCall demo demo_service q)
        (demo_state (7 ∷ 7 ∷ []))
        result
        after_trade
unfolding validate_trade validate_stellar_public_key trim_space has_prefix text validate_contract_id
    is_valid bytes_eq scaled_amount safe_float_to_int64 outcome_to_u32 get_account build_invoke_tx
    read_contract decimal_fuel digits_value last_space_len parse_digits parse_int parse_reason
    show_int show_nat signed space_len trim_fuel utf8 prepared decode_pair validate_parties copy32
    decode_vec encode_address parse_return_value call call_for check_response check_simulation
    next_id post_body read_exchange simulate_transaction update_fee wrap_int64 add_resource_fee
    attach_auth envelope_transaction parse_auths parse_soroban_data prepare simulate_and_prepare
    decode_i128 elements encode_i128 encode_u32 narrow to_int64 to_uint64 rpc_error_text
    require_invoker simulate_and_prepare_tx account_error trade_form parse_outcome to_upper
    demo_form require_address require_outcome require_positive require_slippage
    account_id_from_cookie network_name contains index ◌+ℤ◌ handle_build_sell_tx build_sell_tx_for
    get_sell_quote build_get_sell_quote_tx min_return build_sell_tx
handle_build_sell_tx-IsTrade_example =
    handle_build_sell_tx-IsTrade demo demo_web demo_handler demo_request (demo_state (7 ∷ 7 ∷ []))
      refl

abbrev after_deployment : State demo
after_deployment = record { request_id = 1; world = [] }

abbrev deployed : Page demo
deployed =
    transaction_page
      (record {
        xdr = text "prepared";
        description = text "Deploy new market (b=100, funding=100)";
        sign_with = demo_key;
        submit_url = text "rpc";
      })
      (text "new") (text "Public") (common demo demo_web demo_handler demo_request "oracle")

handle_build_deploy_tx-IsDeployment_example :
    IsDeployed demo demo_web demo_handler demo_request
      (some demo_factory)
      (demo_state (7 ∷ []))
      deployed
      after_deployment
unfolding handle_build_deploy_tx trim_space demo_form bytes_eq text utf8 validate_cid
    require_positive parse_digits digits_value build_deploy_market_tx_for validate_deploy
    safe_float_to_int64 build_deploy_market_tx get_account encode_address build_invoke_tx
    simulate_and_prepare_tx simulate_and_prepare deploy_form configured require_hash scaled
    matches_v0 matches_v1 every is_base58 last_space_len space_len trim_fuel show_nat decimal_fuel
    prepare simulate_transaction call_for call next_id post_body read_exchange check_response
    check_simulation update_fee wrap_int64 add_resource_fee attach_auth envelope_transaction
    parse_auths parse_soroban_data parse_int parse_reason signed copy32 account_error rpc_error_text
    require_invoker network_name is_testnet contains index has_prefix account_id_from_cookie
    total.Service.Deploy.random_salt ◌+ℤ◌
handle_build_deploy_tx-IsDeployment_example =
    handle_build_deploy_tx-IsDeployment demo demo_web demo_handler demo_request
      (demo_state (7 ∷ [])) refl

-- A market with a liquidity parameter of 100 and as much funding.
abbrev deployment : DeployMarketRequest demo
deployment = record { liquidity_param = 10000; metadata_hash = text "Qm"; initial_funding = 10000 }

validate_deploy_exact_example : (validate_deploy demo deployment ≡ none) ↔ (
    (demo_floats.le deployment.liquidity_param (zero_float demo_floats) ≡ false)
    × (deployment.metadata_hash ≢ [])
    × (demo_floats.lt deployment.initial_funding
          (demo_floats.mul deployment.liquidity_param (demo_floats.constant 7 1))
        ≡ false))
validate_deploy_exact_example = validate_deploy_exact demo deployment

abbrev uri : Bytes
uri = text "web+stellar:tx?xdr=AAAA"

handle_mtl_wallet-IsSafe_example :
    IsSafeBody demo demo_web uri
    × (length uri ≤ 2 ^ 16)
    × (is_testnet (text "Public") ≡ false)
    × (has_prefix (demo_form "uri") uri_prefix ≡ true)
    × (length (demo_form "uri") ≤ 64 * 1024)
unfolding handle_mtl_wallet is_testnet contains text demo_form bytes_eq
handle_mtl_wallet-IsSafe_example =
    handle_mtl_wallet-IsSafe demo demo_web demo_handler demo_request (demo_state []) refl

-- The next request, with the cookie.
abbrev next_request : Request
next_request = record demo_request { cookie = some demo_key }

account_id_from_cookie-handle_set_account_example :
    account_id_from_cookie demo next_request ≡ trim_space (demo_form "account_id")
unfolding handle_set_account trim_space demo_form bytes_eq text set_account_id_cookie
account_id_from_cookie-handle_set_account_example =
    account_id_from_cookie-handle_set_account demo demo_web demo_request next_request
      (demo_state []) refl refl

-- Two markets, whose goroutines run the later one first.
abbrev first_state : MarketState demo
first_state = record {
  contract_id = text "C1";
  yes_sold = pos 30;
  no_sold = pos 10;
  pool = pos 5;
  resolved = false;
  winning_outcome = [];
  metadata_hash = [];
  price_yes = 75;
  price_no = 25;
}

abbrev second_state : MarketState demo
second_state = record first_state { contract_id = text "C2"; price_yes = 50; price_no = 50 }

build_market_views-IsAt_example :
    IsAt demo demo_web demo_handler
      (first_state ∷ second_state ∷ [])
      (build_market_views demo demo_web demo_handler
        (1 ∷ 0 ∷ [])
        (first_state ∷ second_state ∷ [])
        (demo_state [])).0
      1
      second_state
build_market_views-IsAt_example =
    build_market_views-IsAt demo demo_web demo_handler (first_state ∷ second_state ∷ [])
      (1 ∷ 0 ∷ []) (demo_state []) 1 second_state refl (inl refl)
