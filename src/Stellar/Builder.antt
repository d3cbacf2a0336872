-- ===== src/Stellar/Builder.antt =====
-- internal/stellar/builder.go: the builder, and the transactions that a user or the oracle signs.
use total.Prelude.{Option, none, some, [], ◌∷◌}
pub mod Laws
use total.Prelude.Int.{ℤ}
use total.Bytes.{Bytes, text}
use total.Errors.{Action, ◌>>=◌, during, fail, pure, lift, failure}
use total.Soroban.ScVal.{encode_i128, encode_u32, encode_string, encode_bytes32}
use total.Soroban.Address.{encode_address}
use total.Soroban.Client.{State, Client}
use total.Soroban.Invoker.{ContractInvoker, build_invoke_tx, simulate_and_prepare}
use total.Stellar.Horizon.{HorizonClient, get_account}
use total.Stellar.Params.{
  BuyTxParams, SellTxParams, ResolveTxParams, ClaimTxParams, WithdrawTxParams, DeployMarketTxParams,
}
use total.Platform.{Platform}

pub record Builder : Type 0 where
  pub client : HorizonClient
  pub network_passphrase : Bytes
  pub base_fee : ℤ
  pub soroban_client : Option Client
  pub contract_invoker : Option ContractInvoker

-- `NewBuilder`: there is an invoker if there is a client.
unfoldable pub new_builder : HorizonClient → Bytes → ℤ → Option Client → Builder
new_builder client passphrase base_fee none = record {
  client = client;
  network_passphrase = passphrase;
  base_fee = base_fee;
  soroban_client = none;
  contract_invoker = none;
}
new_builder client passphrase base_fee (some c) = record {
  client = client;
  network_passphrase = passphrase;
  base_fee = base_fee;
  soroban_client = some c;
  contract_invoker =
      some (record { client = c; network_passphrase = passphrase; base_fee = base_fee });
}

module _ (P : Platform) where
  -- `if b.contractInvoker == nil { return … }`
  unfoldable pub require_invoker : Builder → Action (State P) ContractInvoker
  require_invoker b = elim b.contract_invoker [
    | none ↦ fail (failure "soroban client not configured")
    | some ci ↦ pure ci
  ]

  unfoldable pub build_buy_tx : Builder → BuyTxParams → Action (State P) Bytes
  unfolding require_invoker
  build_buy_tx b params = do
    ci ← require_invoker b
    source ← during "failed to get user account: " (get_account P b.client params.user_public_key)
    address ←
        during "failed to encode user address: " (lift (encode_address P params.user_public_key))
    build_invoke_tx P ci (record {
      source_account = source;
      contract_id = params.contract_id;
      function_name = text "buy";
      args =
          address
          ∷ encode_u32 params.outcome
          ∷ encode_i128 params.amount
          ∷ encode_i128 params.max_cost
          ∷ [];
      auth = [];
    })

  unfoldable pub build_sell_tx : Builder → SellTxParams → Action (State P) Bytes
  unfolding require_invoker
  build_sell_tx b params = do
    ci ← require_invoker b
    source ← during "failed to get user account: " (get_account P b.client params.user_public_key)
    address ←
        during "failed to encode user address: " (lift (encode_address P params.user_public_key))
    build_invoke_tx P ci (record {
      source_account = source;
      contract_id = params.contract_id;
      function_name = text "sell";
      args =
          address
          ∷ encode_u32 params.outcome
          ∷ encode_i128 params.amount
          ∷ encode_i128 params.min_return
          ∷ [];
      auth = [];
    })

  unfoldable pub build_resolve_tx : Builder → ResolveTxParams → Action (State P) Bytes
  unfolding require_invoker
  build_resolve_tx b params = do
    ci ← require_invoker b
    source ←
        during "failed to get oracle account: " (get_account P b.client params.oracle_public_key)
    address ←
        during "failed to encode oracle address: "
          (lift (encode_address P params.oracle_public_key))
    build_invoke_tx P ci (record {
      source_account = source;
      contract_id = params.contract_id;
      function_name = text "resolve";
      args = address ∷ encode_u32 params.winning_outcome ∷ [];
      auth = [];
    })

  unfoldable pub build_claim_tx : Builder → ClaimTxParams → Action (State P) Bytes
  unfolding require_invoker
  build_claim_tx b params = do
    ci ← require_invoker b
    source ← during "failed to get user account: " (get_account P b.client params.user_public_key)
    address ←
        during "failed to encode user address: " (lift (encode_address P params.user_public_key))
    build_invoke_tx P ci (record {
      source_account = source;
      contract_id = params.contract_id;
      function_name = text "claim";
      args = address ∷ [];
      auth = [];
    })

  unfoldable pub build_withdraw_tx : Builder → WithdrawTxParams → Action (State P) Bytes
  unfolding require_invoker
  build_withdraw_tx b params = do
    ci ← require_invoker b
    source ←
        during "failed to get oracle account: " (get_account P b.client params.oracle_public_key)
    address ←
        during "failed to encode oracle address: "
          (lift (encode_address P params.oracle_public_key))
    build_invoke_tx P ci (record {
      source_account = source;
      contract_id = params.contract_id;
      function_name = text "withdraw_remaining";
      args = address ∷ [];
      auth = [];
    })

  unfoldable pub build_deploy_market_tx : Builder → DeployMarketTxParams → Action (State P) Bytes
  unfolding require_invoker
  build_deploy_market_tx b params = do
    ci ← require_invoker b
    source ←
        during "failed to get oracle account: " (get_account P b.client params.oracle_public_key)
    address ←
        during "failed to encode oracle address: "
          (lift (encode_address P params.oracle_public_key))
    build_invoke_tx P ci (record {
      source_account = source;
      contract_id = params.factory_contract;
      function_name = text "deploy_market";
      args =
          address
          ∷ encode_i128 params.liquidity_param
          ∷ encode_string params.metadata_hash
          ∷ encode_i128 params.initial_funding
          ∷ encode_bytes32 params.salt
          ∷ [];
      auth = [];
    })

  unfoldable pub simulate_and_prepare_tx : Builder → Bytes → Action (State P) Bytes
  unfolding require_invoker
  simulate_and_prepare_tx b tx_xdr = do ci ← require_invoker b; simulate_and_prepare P ci tx_xdr
