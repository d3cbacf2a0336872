-- ===== src/Service/Market.antt =====
-- internal/service/market.go: the transactions that the service builds, and a user's balances.
pub mod Laws
pub mod Closing
use total.Prelude.{ℕ, Bool, true, false, [], ◌∷◌, ◌++◌}
use total.Prelude.Int.{ℤ, pos, ltb_ℤ}
use total.Bytes.{Bytes, text, show_int}
use total.Errors.{
  Result, ok, err, both, Action, ◌>>=◌, ◌>>◌, during, lift, pure, reject, plain, wrapped,
}
use total.Model.{TransactionResult, validate_stellar_public_key, one_float}
use total.Stellar.Builder.{
  build_buy_tx, build_sell_tx, build_resolve_tx, build_claim_tx, build_withdraw_tx,
  simulate_and_prepare_tx,
}
use total.Stellar.Queries.{build_get_balance_tx}
use total.Soroban.Types.{outcome_to_u32, outcome_yes, outcome_no}
use total.Soroban.ScVal.{decode_i128}
use total.Soroban.Address.{parse_return_value, validate_contract_id}
use total.Soroban.Client.{State, simulate_transaction}
use total.Service.Amount.{safe_float_to_int64, scale}
use total.Service.Requests.{
  TradeRequest, ResolveRequest, ClaimRequest, WithdrawRequest, validate_trade, validate_resolve,
  validate_claim, validate_withdraw,
}
use total.Service.Reading.{MarketService, check, first_xdr}
use total.Service.Quotes.{get_quote, get_sell_quote}
use total.Platform.{Platform}

-- `cost <= 0` of an int64
abbrev pub not_positive : ℤ → Bool
not_positive c = ltb_ℤ c (pos 1)

module _ (P : Platform) where
  open P use {floats}

  -- The end of every builder: simulate, and return what is to be signed.
  unfoldable pub prepared :
      MarketService → Bytes → Bytes → Bytes → Action (State P) TransactionResult
  prepared m tx_xdr description sign_with = do
    xdr ← during "failed to simulate transaction: " (simulate_and_prepare_tx P m.tx_builder tx_xdr)
    pure (record {
      xdr = xdr;
      description = description;
      sign_with = sign_with;
      submit_url = m.soroban_client.rpc_url;
    })

  -- The scaled amount of a trade.
  unfoldable pub scaled_amount : floats.Float → Result ℤ
  scaled_amount amount = safe_float_to_int64 floats (floats.mul amount (scale floats))

  -- `float64(cost) * (1 + slippage)` as an int64.
  unfoldable pub max_cost : ℤ → floats.Float → Result ℤ
  max_cost cost slippage =
      safe_float_to_int64 floats
        (floats.mul (floats.of_int cost) (floats.add (one_float floats) slippage))

  -- `float64(return) * (1 - slippage)` as an int64.
  unfoldable pub min_return : ℤ → floats.Float → Result ℤ
  min_return amount slippage =
      safe_float_to_int64 floats
        (floats.mul (floats.of_int amount) (floats.sub (one_float floats) slippage))

  unfoldable pub build_buy_tx_for :
      MarketService → TradeRequest P → Action (State P) TransactionResult
  unfolding prepared
  build_buy_tx_for m r = do
    check "buy request validation failed: " (validate_trade P r)
    amount ← during "invalid share amount: " (lift (scaled_amount r.share_amount))
    quote ← during "failed to get quote: " (get_quote P m r.contract_id r.outcome r.share_amount)
    reject (not_positive quote.cost) (
        plain (
          text "invalid quote cost: "
          ++ (show_int quote.cost ++ text " (expected positive value)")))
    limit ← during "max cost calculation overflow: " (lift (max_cost quote.cost r.slippage))
    outcome ← during "invalid outcome: " (lift (outcome_to_u32 P.quote r.outcome))
    tx_xdr ← during "failed to build transaction: " (
        build_buy_tx P m.tx_builder (record {
          user_public_key = r.user_public_key;
          contract_id = r.contract_id;
          outcome = outcome;
          amount = amount;
          max_cost = limit;
        }))
    prepared m tx_xdr
        (text "Buy "
          ++ (floats.show_fixed 2 r.share_amount ++ (text " " ++ (r.outcome ++ text " tokens"))))
        r.user_public_key

  unfoldable pub build_sell_tx_for :
      MarketService → TradeRequest P → Action (State P) TransactionResult
  unfolding prepared
  build_sell_tx_for m r = do
    check "sell request validation failed: " (validate_trade P r)
    amount ← during "invalid share amount: " (lift (scaled_amount r.share_amount))
    quote ←
        during "failed to get sell quote: "
          (get_sell_quote P m r.contract_id r.outcome r.share_amount)
    reject (not_positive quote.return_amount) (
        plain (
          text "invalid sell return: "
          ++ (show_int quote.return_amount ++ text " (expected positive value)")))
    limit ←
        during "min return calculation overflow: "
          (lift (min_return quote.return_amount r.slippage))
    outcome ← during "invalid outcome: " (lift (outcome_to_u32 P.quote r.outcome))
    tx_xdr ← during "failed to build transaction: " (
        build_sell_tx P m.tx_builder (record {
          user_public_key = r.user_public_key;
          contract_id = r.contract_id;
          outcome = outcome;
          amount = amount;
          min_return = limit;
        }))
    prepared m tx_xdr
        (text "Sell "
          ++ (floats.show_fixed 2 r.share_amount ++ (text " " ++ (r.outcome ++ text " tokens"))))
        r.user_public_key

  unfoldable pub build_resolve_tx_for :
      MarketService → ResolveRequest → Action (State P) TransactionResult
  unfolding prepared
  build_resolve_tx_for m r = do
    check "resolve request validation failed: " (validate_resolve P r)
    outcome ← during "invalid outcome: " (lift (outcome_to_u32 P.quote r.winning_outcome))
    tx_xdr ← during "failed to build transaction: " (
        build_resolve_tx P m.tx_builder (record {
          oracle_public_key = r.oracle_public_key;
          contract_id = r.contract_id;
          winning_outcome = outcome;
        }))
    prepared m tx_xdr (text "Resolve market: " ++ (r.winning_outcome ++ text " wins"))
        r.oracle_public_key

  unfoldable pub build_claim_tx_for :
      MarketService → ClaimRequest → Action (State P) TransactionResult
  unfolding prepared
  build_claim_tx_for m r = do
    check "claim request validation failed: " (validate_claim P r)
    tx_xdr ← during "failed to build transaction: " (
        build_claim_tx P m.tx_builder
          (record { user_public_key = r.user_public_key; contract_id = r.contract_id }))
    prepared m tx_xdr (text "Claim winnings") r.user_public_key

  unfoldable pub build_withdraw_tx_for :
      MarketService → WithdrawRequest → Action (State P) TransactionResult
  unfolding prepared
  build_withdraw_tx_for m r = do
    check "withdraw request validation failed: " (validate_withdraw P r)
    tx_xdr ← during "failed to build transaction: " (
        build_withdraw_tx P m.tx_builder
          (record { oracle_public_key = r.oracle_public_key; contract_id = r.contract_id }))
    prepared m tx_xdr (text "Withdraw remaining pool") r.oracle_public_key

  -- `getOutcomeBalance`: 0 where the simulation returns nothing.
  unfoldable pub get_outcome_balance : MarketService → Bytes → Bytes → ℕ → Action (State P) ℤ
  get_outcome_balance m contract_id account outcome = do
    tx_xdr ← during "failed to build get_balance tx: " (
        build_get_balance_tx P m.tx_builder (record {
          user_public_key = m.oracle_public_key;
          contract_id = contract_id;
          account = account;
          outcome = outcome;
        }))
    sim ← during "failed to simulate get_balance: " (simulate_transaction P m.soroban_client tx_xdr)
    elim (first_xdr sim.results) [
      | [] ↦ pure (pos 0)
      | b ∷ bs ↦ do
        value ← during "failed to parse return value: " (lift (parse_return_value P (b ∷ bs)))
        during "failed to decode balance: " (lift (decode_i128 value))
    ]

  pub record UserBalance : Type 0 where
    pub yes_balance : floats.Float
    pub no_balance : floats.Float

  -- The two answers, the one for YES looked at first.
  unfoldable pub join_balances : Result ℤ → Result ℤ → Result UserBalance
  join_balances (err e) no_result = err (wrapped "failed to get YES balance: " e)
  join_balances (both a e) no_result = err (wrapped "failed to get YES balance: " e)
  join_balances (ok a) (err e) = err (wrapped "failed to get NO balance: " e)
  join_balances (ok a) (both b e) = err (wrapped "failed to get NO balance: " e)
  join_balances (ok a) (ok b) = ok (record {
    yes_balance = floats.div (floats.of_int a) (scale floats);
    no_balance = floats.div (floats.of_int b) (scale floats);
  })

  -- The two goroutines of `GetBalance`, one after the other: the flag says whether that for YES
  -- runs first. Both run to their end, whatever the other returns.
  unfoldable pub fetch_balances :
      Bool → MarketService → Bytes → Bytes → State P → Result UserBalance × State P
  unfolding join_balances
  fetch_balances true m contract_id account s =
      let (a, s') = get_outcome_balance m contract_id account outcome_yes s in
      let (b, s'') = get_outcome_balance m contract_id account outcome_no s' in
      (join_balances a b, s'')
  fetch_balances false m contract_id account s =
      let (b, s') = get_outcome_balance m contract_id account outcome_no s in
      let (a, s'') = get_outcome_balance m contract_id account outcome_yes s' in
      (join_balances a b, s'')

  unfoldable pub get_balance : Bool → MarketService → Bytes → Bytes → Action (State P) UserBalance
  unfolding fetch_balances
  get_balance yes_first m contract_id account = do
    check "invalid contract ID: " (validate_contract_id P contract_id)
    check "invalid account: " (validate_stellar_public_key account)
    fetch_balances yes_first m contract_id account
