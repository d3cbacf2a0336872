-- ===== src/Config/Start/Laws.antt =====
-- cmd/total/main.go: what a configured program serves.
use total.Prelude.{some, ◌≡◌}
use total.Bytes.{Bytes}
use total.Stellar.Horizon.{HorizonClient}
use total.Service.Factory.{FactoryService}
use total.Handler.Web.{Web, MarketHandler}
use total.Config.{NetworkConfig}
use total.Platform.{Platform}

abbrev horizon_of : NetworkConfig → HorizonClient
horizon_of c = record { horizon_url = c.horizon_url; network_passphrase = c.network_passphrase }

module _ (P : Platform) (W : Web P) where
  -- How a handler is put together: with this network's servers and passphrase, this oracle and this
  -- factory, in each of its services.
  pub record IsWired (network : NetworkConfig) (oracle factory : Bytes) (h : MarketHandler P W)
      : Type 0 where
    pub market_oracle : h.market_service.oracle_public_key ≡ oracle
    pub market_rpc : h.market_service.soroban_client.rpc_url ≡ network.soroban_rpc_url
    pub horizon_url : h.market_service.tx_builder.client.horizon_url ≡ network.horizon_url
    pub market_passphrase :
        h.market_service.tx_builder.network_passphrase ≡ network.network_passphrase
    pub service : FactoryService P
    pub has_factory : h.factory_service ≡ some service
    pub factory_contract : service.factory_contract ≡ factory
    pub factory_oracle : service.oracle_public_key ≡ oracle
    pub factory_rpc : service.soroban_client.rpc_url ≡ network.soroban_rpc_url
    pub factory_builder : service.tx_builder ≡ h.market_service.tx_builder
    pub handler_oracle : h.oracle_public_key ≡ oracle
    pub handler_passphrase : h.network_passphrase ≡ network.network_passphrase
