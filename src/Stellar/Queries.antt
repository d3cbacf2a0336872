-- ===== src/Stellar/Queries.antt =====
-- internal/stellar/builder.go: the transactions that are only simulated, to read a contract.
pub mod Laws
use total.Prelude.{[], ◌∷◌}
use total.Bytes.{Bytes, text}
use total.Errors.{Action, ◌>>=◌, during, lift}
use total.Soroban.ScVal.{encode_i128, encode_u32}
use total.Soroban.Address.{encode_address}
use total.Soroban.Client.{State}
use total.Soroban.Invoker.{build_invoke_tx}
use total.Stellar.Horizon.{get_account}
use total.Platform.{Platform}
use total.Stellar.Builder.{Builder, require_invoker}
use total.Stellar.Params.{
  GetQuoteTxParams, GetBalanceTxParams, ListMarketsTxParams, GetStateTxParams,
  GetMetadataHashTxParams, GetWinningOutcomeTxParams,
}

module _ (P : Platform) where
  unfoldable pub build_get_quote_tx : Builder → GetQuoteTxParams → Action (State P) Bytes
  unfolding require_invoker
  build_get_quote_tx b params = do
    ci ← require_invoker P b
    source ← during "failed to get user account: " (get_account P b.client params.user_public_key)
    build_invoke_tx P ci (record {
      source_account = source;
      contract_id = params.contract_id;
      function_name = text "get_quote";
      args = encode_u32 params.outcome ∷ encode_i128 params.amount ∷ [];
      auth = [];
    })

  unfoldable pub build_get_sell_quote_tx : Builder → GetQuoteTxParams → Action (State P) Bytes
  unfolding require_invoker
  build_get_sell_quote_tx b params = do
    ci ← require_invoker P b
    source ← during "failed to get user account: " (get_account P b.client params.user_public_key)
    build_invoke_tx P ci (record {
      source_account = source;
      contract_id = params.contract_id;
      function_name = text "get_sell_quote";
      args = encode_u32 params.outcome ∷ encode_i128 params.amount ∷ [];
      auth = [];
    })

  unfoldable pub build_get_balance_tx : Builder → GetBalanceTxParams → Action (State P) Bytes
  unfolding require_invoker
  build_get_balance_tx b params = do
    ci ← require_invoker P b
    source ← during "failed to get user account: " (get_account P b.client params.user_public_key)
    address ← during "failed to encode account address: " (lift (encode_address P params.account))
    build_invoke_tx P ci (record {
      source_account = source;
      contract_id = params.contract_id;
      function_name = text "get_balance";
      args = address ∷ encode_u32 params.outcome ∷ [];
      auth = [];
    })

  unfoldable pub build_list_markets_tx : Builder → ListMarketsTxParams → Action (State P) Bytes
  unfolding require_invoker
  build_list_markets_tx b params = do
    ci ← require_invoker P b
    source ← during "failed to get user account: " (get_account P b.client params.user_public_key)
    build_invoke_tx P ci (record {
      source_account = source;
      contract_id = params.factory_contract;
      function_name = text "list_markets";
      args = [];
      auth = [];
    })

  unfoldable pub build_get_state_tx : Builder → GetStateTxParams → Action (State P) Bytes
  unfolding require_invoker
  build_get_state_tx b params = do
    ci ← require_invoker P b
    source ← during "failed to get user account: " (get_account P b.client params.user_public_key)
    build_invoke_tx P ci (record {
      source_account = source;
      contract_id = params.contract_id;
      function_name = text "get_state";
      args = [];
      auth = [];
    })

  unfoldable pub build_get_metadata_hash_tx :
      Builder → GetMetadataHashTxParams → Action (State P) Bytes
  unfolding require_invoker
  build_get_metadata_hash_tx b params = do
    ci ← require_invoker P b
    source ← during "failed to get user account: " (get_account P b.client params.user_public_key)
    build_invoke_tx P ci (record {
      source_account = source;
      contract_id = params.contract_id;
      function_name = text "get_metadata_hash";
      args = [];
      auth = [];
    })

  unfoldable pub build_get_winning_outcome_tx :
      Builder → GetWinningOutcomeTxParams → Action (State P) Bytes
  unfolding require_invoker
  build_get_winning_outcome_tx b params = do
    ci ← require_invoker P b
    source ← during "failed to get user account: " (get_account P b.client params.user_public_key)
    build_invoke_tx P ci (record {
      source_account = source;
      contract_id = params.contract_id;
      function_name = text "get_winning_outcome";
      args = [];
      auth = [];
    })
