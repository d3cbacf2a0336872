-- ===== src/Tests/Closing.antt =====
-- The closing of a market by the site's handlers, at concrete requests.
use total.Prelude.Int.{◌+ℤ◌}
use total.Config.{network_name}
use total.Handler.Forms.{require_address, require_outcome, require_positive}
use total.Stellar.Builder.{
  require_invoker, simulate_and_prepare_tx, build_resolve_tx, build_claim_tx, build_withdraw_tx,
}
use total.Soroban.ScVal.{elements, encode_i128, encode_u32, narrow, to_int64, to_uint64}
use total.Soroban.Invoker.Fee.{update_fee, wrap_int64}
use total.Service.Reading.{decode_pair}
use total.Service.Market.{prepared, build_resolve_tx_for, build_claim_tx_for, build_withdraw_tx_for}
use total.Soroban.Invoker.{
  build_invoke_tx, add_resource_fee, attach_auth, envelope_transaction, parse_auths,
  parse_soroban_data, prepare, simulate_and_prepare,
}
use total.Stellar.Horizon.{get_account, account_error}
use total.Soroban.Address.{
  validate_contract_id, copy32, decode_vec, encode_address, parse_return_value,
}
use total.Prelude.{String, ℕ, ◌≡◌, [], ◌∷◌, none, refl}
use total.Bytes.{
  Bytes, text, trim_space, has_prefix, bytes_eq, decimal_fuel, digits_value, last_space_len,
  parse_digits, parse_int, parse_reason, show_int, show_nat, signed, space_len, trim_fuel, utf8,
  to_upper, contains, index,
}
use total.Errors.{ok}
use total.Model.{TransactionResult, validate_stellar_public_key, is_valid, parse_outcome}
use total.Soroban.Client.{
  State, call, call_for, check_response, check_simulation, next_id, post_body, read_exchange,
  simulate_transaction,
}
use total.Soroban.Types.{outcome_to_u32, rpc_error_text}
use total.Service.Requests.{
  ResolveRequest, ClaimRequest, WithdrawRequest, validate_parties, validate_resolve, validate_claim,
  validate_withdraw,
}
use total.Service.Market.Closing.{IsPrepared, IsResolveCall, IsClaimCall, IsWithdrawCall}
use total.Handler.Web.{Request, Page, transaction_page, common, account_id_from_cookie}
use total.Handler.Trade.{
  transaction_of, handle_resolve_market, handle_build_claim_tx, handle_build_withdraw_tx,
  resolve_form, claim_form, withdraw_form,
}
use total.Handler.Trade.Closing.{
  IsResolveForm, IsClaimForm, IsWithdrawForm, handle_resolve_market-IsPrepared,
  handle_build_claim_tx-IsPrepared, handle_build_withdraw_tx-IsPrepared,
}
use total.Demo.{demo, demo_service, demo_key, demo_contract, demo_state}
use total.Demo.Site.{demo_web, demo_handler, demo_request, demo_form}

-- The page of a transaction of this market, under this part of the site.
abbrev shown : Bytes → Request → String → Page demo
shown description r nav =
    transaction_page
      (record {
        xdr = text "prepared";
        description = description;
        sign_with = demo_key;
        submit_url = text "rpc";
      })
      demo_contract (text "Public") (common demo demo_web demo_handler r nav)

abbrev after_call : State demo
after_call = record { request_id = 1; world = [] }

-- A form that holds the key wherever it is asked.
abbrev oracle_request : Request
oracle_request = record {
  path = text "/oracle/C/withdraw";
  path_id = demo_contract;
  form_error = none;
  form = λ key. demo_key;
  query = λ key. [];
  cookie = none;
  referer = [];
}

handle_resolve_market-IsPrepared_example :
    (q : ResolveRequest) × (result : TransactionResult) × (outcome : ℕ) × IsResolveForm demo
      demo_web demo_handler demo_request q
    × (transaction_of demo demo_web demo_handler demo_request demo_contract
          (common demo demo_web demo_handler demo_request "oracle")
          result
        ≡ shown (text "Resolve market: YES wins") demo_request "oracle")
    × (outcome_to_u32 demo.quote q.winning_outcome ≡ ok outcome)
    × IsPrepared demo demo_service q.oracle_public_key
        (IsResolveCall demo demo_service q outcome)
        (demo_state (7 ∷ []))
        result
        after_call
unfolding validate_stellar_public_key trim_space has_prefix text validate_contract_id is_valid
    bytes_eq outcome_to_u32 get_account build_invoke_tx decimal_fuel digits_value last_space_len
    parse_digits parse_int parse_reason show_int show_nat signed space_len trim_fuel utf8 prepared
    decode_pair validate_parties copy32 decode_vec encode_address parse_return_value call call_for
    check_response check_simulation next_id post_body read_exchange simulate_transaction update_fee
    wrap_int64 add_resource_fee attach_auth envelope_transaction parse_auths parse_soroban_data
    prepare simulate_and_prepare elements encode_i128 encode_u32 narrow to_int64 to_uint64
    rpc_error_text require_invoker simulate_and_prepare_tx account_error parse_outcome to_upper
    demo_form require_address require_outcome require_positive account_id_from_cookie network_name
    contains index ◌+ℤ◌ handle_resolve_market resolve_form build_resolve_tx_for build_resolve_tx
    validate_resolve
handle_resolve_market-IsPrepared_example =
    handle_resolve_market-IsPrepared demo demo_web demo_handler demo_request (demo_state (7 ∷ []))
      refl

handle_build_claim_tx-IsPrepared_example :
    (q : ClaimRequest) × (result : TransactionResult) × IsClaimForm demo demo_web demo_request q
    × (transaction_of demo demo_web demo_handler demo_request demo_contract
          (common demo demo_web demo_handler demo_request "markets")
          result
        ≡ shown (text "Claim winnings") demo_request "markets")
    × IsPrepared demo demo_service q.user_public_key
        (IsClaimCall demo demo_service q)
        (demo_state (7 ∷ []))
        result
        after_call
unfolding validate_stellar_public_key trim_space has_prefix text validate_contract_id is_valid
    bytes_eq outcome_to_u32 get_account build_invoke_tx decimal_fuel digits_value last_space_len
    parse_digits parse_int parse_reason show_int show_nat signed space_len trim_fuel utf8 prepared
    decode_pair validate_parties copy32 decode_vec encode_address parse_return_value call call_for
    check_response check_simulation next_id post_body read_exchange simulate_transaction update_fee
    wrap_int64 add_resource_fee attach_auth envelope_transaction parse_auths parse_soroban_data
    prepare simulate_and_prepare elements encode_i128 encode_u32 narrow to_int64 to_uint64
    rpc_error_text require_invoker simulate_and_prepare_tx account_error parse_outcome to_upper
    demo_form require_address require_outcome require_positive account_id_from_cookie network_name
    contains index ◌+ℤ◌ handle_build_claim_tx claim_form build_claim_tx_for build_claim_tx
    validate_claim
handle_build_claim_tx-IsPrepared_example =
    handle_build_claim_tx-IsPrepared demo demo_web demo_handler demo_request (demo_state (7 ∷ []))
      refl

handle_build_withdraw_tx-IsPrepared_example :
    (q : WithdrawRequest) × (result : TransactionResult) × IsWithdrawForm demo demo_web
      oracle_request q
    × (transaction_of demo demo_web demo_handler oracle_request demo_contract
          (common demo demo_web demo_handler oracle_request "oracle")
          result
        ≡ shown (text "Withdraw remaining pool") oracle_request "oracle")
    × IsPrepared demo demo_service q.oracle_public_key
        (IsWithdrawCall demo demo_service q)
        (demo_state (7 ∷ []))
        result
        after_call
unfolding validate_stellar_public_key trim_space has_prefix text validate_contract_id is_valid
    bytes_eq outcome_to_u32 get_account build_invoke_tx decimal_fuel digits_value last_space_len
    parse_digits parse_int parse_reason show_int show_nat signed space_len trim_fuel utf8 prepared
    decode_pair validate_parties copy32 decode_vec encode_address parse_return_value call call_for
    check_response check_simulation next_id post_body read_exchange simulate_transaction update_fee
    wrap_int64 add_resource_fee attach_auth envelope_transaction parse_auths parse_soroban_data
    prepare simulate_and_prepare elements encode_i128 encode_u32 narrow to_int64 to_uint64
    rpc_error_text require_invoker simulate_and_prepare_tx account_error parse_outcome to_upper
    demo_form require_address require_outcome require_positive account_id_from_cookie network_name
    contains index ◌+ℤ◌ handle_build_withdraw_tx withdraw_form build_withdraw_tx_for
    build_withdraw_tx validate_withdraw
handle_build_withdraw_tx-IsPrepared_example =
    handle_build_withdraw_tx-IsPrepared demo demo_web demo_handler oracle_request
      (demo_state (7 ∷ [])) refl
