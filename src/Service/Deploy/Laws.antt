-- ===== src/Service/Deploy/Laws.antt =====
-- What a deployment is checked for before anything is sent.
use total.Prelude.{false, some, none, [], ◌∷◌, ◌≡◌, ◌≢◌, ◌↔◌, refl, arith}
use total.Bytes.{Bytes, is_empty}
use total.Errors.{Error, sentinel, wrapped, err, factory_not_configured}
use total.Model.{zero_float}
use total.Soroban.Client.{State}
use total.Service.Factory.{FactoryService}
use total.Service.Deploy.{DeployMarketRequest, validate_deploy, build_deploy_market_tx_for}
use total.Platform.{Platform}

module _ (P : Platform) where
  open P use {floats}

  -- A deployment is accepted exactly if its liquidity parameter is not at most 0, its metadata hash
  -- is not empty, and its funding is not below 70% of the liquidity parameter.
  pub validate_deploy_exact :
      (r : DeployMarketRequest P)
      → (validate_deploy P r ≡ none) ↔ (
          (floats.le r.liquidity_param (zero_float floats) ≡ false)
          × (r.metadata_hash ≢ [])
          × (floats.lt r.initial_funding (floats.mul r.liquidity_param (floats.constant 7 1))
              ≡ false))
  unfolding validate_deploy
  validate_deploy_exact r = (λ e. ground arith, λ p. ground arith)

  not_empty : (b : Bytes) → b ≢ [] → is_empty b ≡ false
  not_empty [] h = absurd (h refl)
  not_empty (c ∷ cs) h = refl

  -- Without a factory contract, or with a request that is refused, a deployment ends with that
  -- error, the factory's first, and neither a request is sent nor a salt drawn.
  pub build_deploy_market_tx_for-refused :
      (m : FactoryService P) (r : DeployMarketRequest P) (s : State P)
      → (m.factory_contract ≡ []
          → build_deploy_market_tx_for P m r s ≡ (err (sentinel factory_not_configured), s))
        × ((e : Error)
            → m.factory_contract ≢ []
            → validate_deploy P r ≡ some e
            → build_deploy_market_tx_for P m r s
              ≡ (err (wrapped "deploy request validation failed: " e), s))
  unfolding build_deploy_market_tx_for
  build_deploy_market_tx_for-refused m r s =
      (λ h. rw h refl, λ e h g. rw (not_empty m.factory_contract h) (rw g refl))
