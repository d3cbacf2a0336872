-- ===== src/Service/Deploy.antt =====
-- internal/service/factory.go: `DeployMarketRequest` and `BuildDeployMarketTx`.
pub mod Laws
pub mod Call
use total.Prelude.{Option, none, some, ◌++◌, if◌then◌else◌}
use total.Prelude.Int.{ℤ}
use total.Bytes.{Bytes, text, is_empty}
use total.Errors.{
  Error, sentinel, Result, ok, err, both, Action, ◌>>=◌, ◌>>◌, during, lift, pure, reject, plain,
  factory_not_configured, invalid_metadata_hash, invalid_liquidity_param,
}
use total.Model.{TransactionResult, zero_float}
use total.Stellar.Builder.{build_deploy_market_tx, simulate_and_prepare_tx}
use total.Soroban.Client.{State}
use total.Service.Amount.{safe_float_to_int64, scale}
use total.Service.Reading.{check}
use total.Service.Factory.{FactoryService}
use total.Platform.{Platform}

module _ (P : Platform) where
  open P use {floats}

  pub record DeployMarketRequest : Type 0 where
    pub liquidity_param : floats.Float
    pub metadata_hash : Bytes
    pub initial_funding : floats.Float

  -- 70% of the liquidity parameter
  abbrev pub min_funding : DeployMarketRequest → floats.Float
  min_funding r = floats.mul r.liquidity_param (floats.constant 7 1)

  unfoldable pub validate_deploy : DeployMarketRequest → Option Error
  validate_deploy r =
      if floats.le r.liquidity_param (zero_float floats)
      then some (sentinel invalid_liquidity_param)
      else if is_empty r.metadata_hash
      then some (sentinel invalid_metadata_hash)
      else if floats.lt r.initial_funding (min_funding r)
      then some (
          plain (
            text "initial funding must be at least "
            ++ (floats.show_fixed 2 (min_funding r) ++ text " (70% of liquidity parameter)")))
      else none

  unfoldable pub random_salt : Action (State P) Bytes
  random_salt s = let (r, w) = P.random_salt s.world in (r, record s { world = w })

  -- A float of tokens as an int64 of their smallest units.
  unfoldable pub scaled : floats.Float → Result ℤ
  scaled f = safe_float_to_int64 floats (floats.mul f (scale floats))

  unfoldable pub build_deploy_market_tx_for :
      FactoryService P → DeployMarketRequest → Action (State P) TransactionResult
  unfolding random_salt scaled
  build_deploy_market_tx_for m r = do
    reject (is_empty m.factory_contract) (sentinel factory_not_configured)
    check "deploy request validation failed: " (validate_deploy r)
    salt ← during "failed to generate salt: " random_salt
    liquidity ← during "invalid liquidity parameter: " (lift (scaled r.liquidity_param))
    funding ← during "invalid initial funding: " (lift (scaled r.initial_funding))
    tx_xdr ← during "failed to build deploy transaction: " (
        build_deploy_market_tx P m.tx_builder (record {
          oracle_public_key = m.oracle_public_key;
          factory_contract = m.factory_contract;
          liquidity_param = liquidity;
          metadata_hash = r.metadata_hash;
          initial_funding = funding;
          salt = salt;
        }))
    xdr ← during "failed to simulate transaction: " (simulate_and_prepare_tx P m.tx_builder tx_xdr)
    pure (record {
      xdr = xdr;
      description =
          text "Deploy new market (b="
          ++ (floats.show_fixed 2 r.liquidity_param
              ++ (text ", funding=" ++ (floats.show_fixed 2 r.initial_funding ++ text ")")));
      sign_with = m.oracle_public_key;
      submit_url = m.soroban_client.rpc_url;
    })
