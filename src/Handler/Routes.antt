-- ===== src/Handler/Routes.antt =====
-- internal/handler/market.go: `RegisterRoutes`, and `NewMarketHandler`.
pub mod Answers
pub mod Laws
use total.Prelude.{String, Option, none, some, List, [], ◌∷◌}
use total.Bytes.{Bytes}
use total.Soroban.Client.{State}
use total.Service.Events.{EventService}
use total.Service.Factory.{FactoryService}
use total.Service.States.{StateCache}
use total.Service.Reading.{MarketService}
use total.Ipfs.Store.{IpfsClient}
use total.Handler.Web.{Web, Request, Reply, Schedule, MarketHandler, gateway_of}
use total.Handler.Trade.{
  handle_get_quote, handle_build_buy_tx, handle_build_sell_tx, handle_resolve_market,
  handle_build_claim_tx, handle_build_withdraw_tx, handle_build_deploy_tx,
}
use total.Handler.Views.{handle_list_markets, handle_oracle_admin}
use total.Handler.Detail.{handle_market_detail, handle_outcome_page}
use total.Handler.Account.{
  handle_set_account, handle_redirect_to_oracle, handle_health, handle_api_quote, handle_mtl_wallet,
}
use total.Platform.{Platform}

module _ (P : Platform) (W : Web P) where
  -- `NewMarketHandler`
  unfoldable pub new_market_handler :
      MarketService
      → Option (FactoryService P)
      → StateCache P
      → Option (EventService P)
      → Option (IpfsClient (gateway_of P W) P.quote)
      → Bytes
      → Bytes
      → MarketHandler P W
  new_market_handler market factory states events ipfs oracle passphrase = record {
    market_service = market;
    factory_service = factory;
    state_cache = states;
    event_service = events;
    ipfs_client = ipfs;
    oracle_public_key = oracle;
    network_passphrase = passphrase;
  }

  abbrev pub Handle : Type 0
  Handle = MarketHandler P W → Request → State P → Reply P × State P

  -- A pattern of the mux, with its handler.
  pub record Route : Type 0 where
    pub pattern : String
    pub handle : Handle

  unfoldable pub routes : Schedule → List Route
  routes o =
      record { pattern = "GET /"; handle = handle_list_markets P W o }
      ∷ record { pattern = "GET /markets"; handle = handle_list_markets P W o }
      ∷ record { pattern = "GET /market/{id}"; handle = handle_market_detail P W o }
      ∷ record { pattern = "POST /market/{id}/quote"; handle = handle_get_quote P W }
      ∷ record { pattern = "POST /market/{id}/buy"; handle = handle_build_buy_tx P W }
      ∷ record { pattern = "POST /market/{id}/sell"; handle = handle_build_sell_tx P W }
      ∷ record { pattern = "POST /market/{id}/resolve"; handle = handle_resolve_market P W }
      ∷ record { pattern = "POST /market/{id}/claim"; handle = handle_build_claim_tx P W }
      ∷ record { pattern = "POST /market/{id}/withdraw"; handle = handle_build_withdraw_tx P W }
      ∷ record { pattern = "GET /market/{id}/yes"; handle = handle_outcome_page P W o }
      ∷ record { pattern = "GET /market/{id}/no"; handle = handle_outcome_page P W o }
      ∷ record { pattern = "POST /account"; handle = λ _. handle_set_account P W }
      ∷ record { pattern = "GET /oracle"; handle = handle_oracle_admin P W o }
      ∷ record { pattern = "GET /deploy"; handle = λ _ _. handle_redirect_to_oracle P W }
      ∷ record { pattern = "POST /deploy"; handle = handle_build_deploy_tx P W }
      ∷ record { pattern = "GET /health"; handle = λ _ _. handle_health P W }
      ∷ record { pattern = "POST /api/quote/{id}"; handle = handle_api_quote P W }
      ∷ record { pattern = "POST /api/mtl-wallet"; handle = handle_mtl_wallet P W }
      ∷ []
