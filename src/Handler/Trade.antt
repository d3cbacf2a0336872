-- ===== src/Handler/Trade.antt =====
-- internal/handler/market.go: the handlers that build transactions and quotes.
pub mod Laws
pub mod Deploying
pub mod Closing
use total.Prelude.{Bool, true, false, not, Option, none, some, ◌⊎◌, inl, inr, if◌then◌else◌, ◌==◌}
use total.Bytes.{Bytes, text, is_empty, trim_space}
use total.Errors.{Error, Result, ok, err, both}
use total.Model.{TransactionResult}
use total.Soroban.Client.{State}
use total.Service.Requests.{TradeRequest, ResolveRequest, ClaimRequest, WithdrawRequest}
use total.Service.Quotes.{get_quote}
use total.Service.Market.{
  build_buy_tx_for, build_sell_tx_for, build_resolve_tx_for, build_claim_tx_for,
  build_withdraw_tx_for,
}
use total.Service.Factory.{FactoryService}
use total.Service.Deploy.{DeployMarketRequest, build_deploy_market_tx_for}
use total.Ipfs.Cid.{validate_cid}
use total.Handler.ErrorCode.{bad_request, service_unavailable}
use total.Handler.Web.{
  Request, Web, MarketHandler, Common, common, Reply, http_error, page, quote_page,
  transaction_page, Page, finish,
}
use total.Handler.Forms.{
  Form, then_form, require_form, require_address, require_outcome, require_positive, trade_form,
}
use total.Platform.{Platform}

-- `h.factoryService == nil || !h.factoryService.HasFactory()` leaves no factory.
unfoldable pub configured : {P : Platform} → Option (FactoryService P) → Option (FactoryService P)
configured none = none
configured (some m) = if is_empty m.factory_contract then none else some m

module _ (P : Platform) (W : Web P) where
  open P use {floats}

  -- A form that is refused is answered with status 400, and nothing is called.
  abbrev pub on_form :
      {A : Type 0} → Form A → (A → State P → Reply P × State P) → State P → Reply P × State P
  on_form (inl message) k s = (http_error message bad_request, s)
  on_form (inr a) k s = k a s

  -- The page of a transaction to sign.
  abbrev pub transaction_of :
      MarketHandler P W → Request → Bytes → Common → TransactionResult → Page P
  transaction_of h r market shown result = transaction_page result market h.network_passphrase shown

  unfoldable pub quote_form : Request → Form (Bytes × floats.Float)
  quote_form r = then_form (require_form r) λ _.
      then_form (require_outcome (r.form "outcome")) λ outcome.
        then_form (require_positive P "Invalid amount" (r.form "amount"))
          λ amount. inr (outcome, amount)

  unfoldable pub handle_get_quote : MarketHandler P W → Request → State P → Reply P × State P
  unfolding quote_form
  handle_get_quote h r = on_form (quote_form r) λ (outcome, amount) s.
      finish P W h r (get_quote P h.market_service r.path_id outcome amount s)
        λ quote. quote_page quote r.path_id (common P W h r "markets")

  unfoldable pub handle_build_buy_tx : MarketHandler P W → Request → State P → Reply P × State P
  handle_build_buy_tx h r = on_form (trade_form P r) λ request s.
      finish P W h r (build_buy_tx_for P h.market_service request s)
        (transaction_of h r r.path_id (common P W h r "markets"))

  unfoldable pub handle_build_sell_tx : MarketHandler P W → Request → State P → Reply P × State P
  handle_build_sell_tx h r = on_form (trade_form P r) λ request s.
      finish P W h r (build_sell_tx_for P h.market_service request s)
        (transaction_of h r r.path_id (common P W h r "markets"))

  unfoldable pub resolve_form : MarketHandler P W → Request → Form ResolveRequest
  resolve_form h r = then_form (require_form r) λ _.
      then_form (require_outcome (r.form "outcome")) λ outcome. inr (record {
        oracle_public_key = h.oracle_public_key;
        contract_id = r.path_id;
        winning_outcome = outcome;
      })

  unfoldable pub handle_resolve_market : MarketHandler P W → Request → State P → Reply P × State P
  unfolding resolve_form
  handle_resolve_market h r = on_form (resolve_form h r) λ request s.
      finish P W h r (build_resolve_tx_for P h.market_service request s)
        (transaction_of h r r.path_id (common P W h r "oracle"))

  unfoldable pub claim_form : Request → Form ClaimRequest
  claim_form r = then_form (require_form r) λ _.
      then_form (require_address P (trim_space (r.form "user_public_key")))
        λ key. inr (record { user_public_key = key; contract_id = r.path_id })

  unfoldable pub handle_build_claim_tx : MarketHandler P W → Request → State P → Reply P × State P
  unfolding claim_form
  handle_build_claim_tx h r = on_form (claim_form r) λ request s.
      finish P W h r (build_claim_tx_for P h.market_service request s)
        (transaction_of h r r.path_id (common P W h r "markets"))

  unfoldable pub withdraw_form : Request → Form WithdrawRequest
  withdraw_form r = then_form (require_form r) λ _.
      then_form (require_address P (trim_space (r.form "oracle_public_key")))
        λ key. inr (record { oracle_public_key = key; contract_id = r.path_id })

  unfoldable pub handle_build_withdraw_tx :
      MarketHandler P W → Request → State P → Reply P × State P
  unfolding withdraw_form
  handle_build_withdraw_tx h r = on_form (withdraw_form r) λ request s.
      finish P W h r (build_withdraw_tx_for P h.market_service request s)
        (transaction_of h r r.path_id (common P W h r "oracle"))

  -- The hash of a deployment's metadata: there is one, and it is an identifier of IPFS.
  unfoldable pub require_hash : Bytes → Form Bytes
  require_hash hash =
      if is_empty hash
      then inl (text "Metadata hash is required (upload metadata to IPFS first)")
      else elim (validate_cid hash) [
        | none ↦ inr hash
        | some e ↦ inl (text "Invalid IPFS hash format (must be CIDv0 Qm... or CIDv1 b...)")
      ]

  unfoldable pub deploy_form : Request → Form (DeployMarketRequest P)
  unfolding require_hash
  deploy_form r = then_form (require_form r) λ _.
      then_form (require_hash (trim_space (r.form "metadata_hash"))) λ hash.
        then_form (require_positive P "Invalid liquidity parameter" (r.form "liquidity_param"))
          λ liquidity.
            then_form (require_positive P "Invalid initial funding" (r.form "initial_funding"))
              λ funding. inr (record {
                liquidity_param = liquidity;
                metadata_hash = hash;
                initial_funding = funding;
              })

  abbrev pub not_configured : Reply P
  not_configured = http_error (text "Factory contract not configured") service_unavailable

  abbrev pub deploy_with :
      MarketHandler P W → Request → Option (FactoryService P) → State P → Reply P × State P
  deploy_with h r none s = (not_configured, s)
  deploy_with h r (some m) s =
      on_form (deploy_form r)
        (λ request s.
          finish P W h r (build_deploy_market_tx_for P m request s)
            (transaction_of h r (text "new") (common P W h r "oracle")))
        s

  unfoldable pub handle_build_deploy_tx : MarketHandler P W → Request → State P → Reply P × State P
  unfolding deploy_form configured
  handle_build_deploy_tx h r s = deploy_with h r (configured h.factory_service) s
