-- ===== src/Service/Deploy/Call.antt =====
-- What a deployment that succeeds was checked for, and the call that it became.
use total.Prelude.{false, none, [], ◌∷◌, ◌≡◌}
use total.Prelude.Int.{ℤ, pos}
use total.Bytes.{Bytes, text, is_empty}
use total.Errors.{ok}
use total.Model.{TransactionResult}
use total.Soroban.Client.{State}
use total.Soroban.ScVal.{encode_i128, encode_string, encode_bytes32}
use total.Stellar.Builder.{simulate_and_prepare_tx}
use total.Stellar.Builder.Laws.{Signed}
use total.Service.Amount.Laws.{IsTruncation}
use total.Service.Factory.{FactoryService}
use total.Service.Deploy.{DeployMarketRequest, validate_deploy, random_salt}
use total.Platform.{Platform}

module _ (P : Platform) where
  open P use {floats}

  -- What lies between a request and the deployment to be signed.
  pub record IsDeploy (m : FactoryService P) (r : DeployMarketRequest P) (s : State P)
      (result : TransactionResult) (t : State P) : Type 0 where
    pub configured : is_empty m.factory_contract ≡ false
    pub valid : validate_deploy P r ≡ none
    pub salt : Bytes
    pub world : P.World
    pub drawn : P.random_salt s.world ≡ (ok salt, world)
    pub liquidity : ℤ
    pub liquidity_scaled :
        IsTruncation floats
          (floats.mul r.liquidity_param (floats.of_int (pos 10_000_000)))
          liquidity
    pub funding : ℤ
    pub funding_scaled :
        IsTruncation floats (floats.mul r.initial_funding (floats.of_int (pos 10_000_000))) funding
    pub unprepared : Bytes
    pub built : State P
    pub is_built :
        Signed P m.tx_builder m.oracle_public_key
          (λ source address. record {
            source_account = source;
            contract_id = m.factory_contract;
            function_name = text "deploy_market";
            args =
                address
                ∷ encode_i128 liquidity
                ∷ encode_string r.metadata_hash
                ∷ encode_i128 funding
                ∷ encode_bytes32 salt
                ∷ [];
            auth = [];
          })
          unprepared
          (record s { world = world })
          built
    pub simulated : simulate_and_prepare_tx P m.tx_builder unprepared built ≡ (ok result.xdr, t)
    pub signer : result.sign_with ≡ m.oracle_public_key
    pub submitted_to : result.submit_url ≡ m.soroban_client.rpc_url
