-- ===== src/Config/Start.antt =====
-- cmd/total/main.go: how the parts are put together and served, and the warm-up of the IPFS cache.
pub mod Laws
use total.Prelude.{Option, none, some, List, [], ◌∷◌, ◌++◌, if◌then◌else◌}
use total.Bytes.{Bytes, text, is_empty}
use total.Errors.{Error, Result, ok, err, both, wrapped, failure}
use total.Soroban.Client.{State, Client, new_client}
use total.Stellar.Horizon.{HorizonClient, new_horizon_client}
use total.Stellar.Builder.{Builder, new_builder}
use total.Service.Events.{Cache, EventService, TradeEvent}
use total.Service.Factory.{FactoryService, MarketState, list_markets}
use total.Service.States.{StateCache, get_market_states}
use total.Service.Create.{new_market_service, new_event_service, new_factory_service}
use total.Ipfs.Fetch.{Gateway}
use total.Ipfs.Store.{IpfsClient, new_ipfs_client, warmup}
use total.Handler.Web.{Web, MarketHandler, gateway_of}
use total.Handler.Routes.{new_market_handler}
use total.Config.{AppConfig, parse_config, default_base_fee}
use total.Prelude.{ℕ}
use total.Platform.{Platform}

-- The end of the server: it fails, or it is told to stop, and then shutting it down may fail.
pub data Served : Type 0 where
  server_failed : Error → Served
  stopped : Option Error → Served

module _ (P : Platform) (W : Web P) where
  -- The caches that the services and the clients build.
  pub record Caches : Type 0 where
    pub market_list : Cache P.World (List Bytes)
    pub states : StateCache P
    pub events : Cache P.World (List (TradeEvent P))
    pub contents : Cache P.World Bytes

  -- The handler of a configuration, given its Horizon client.
  unfoldable pub handler_of : AppConfig → Caches → HorizonClient → MarketHandler P W
  handler_of cfg caches horizon =
      let client = new_client cfg.network_config.soroban_rpc_url in
      let builder =
        new_builder horizon cfg.network_config.network_passphrase default_base_fee (some client) in
      new_market_handler P W (new_market_service horizon client builder cfg.oracle_public_key)
        (some (
          new_factory_service P client builder cfg.factory_contract cfg.oracle_public_key
            caches.market_list))
        caches.states (new_event_service P (some client) caches.events)
        (some (
          new_ipfs_client (gateway_of P W) P.quote cfg.pinata_api_key cfg.pinata_api_secret
            caches.contents))
        cfg.oracle_public_key cfg.network_config.network_passphrase

  abbrev pub with_templates : Option Error → MarketHandler P W → Result (MarketHandler P W)
  with_templates (some e) h = err (wrapped "failed to load templates: " e)
  with_templates none h = ok h

  abbrev pub with_client :
      AppConfig → Caches → Option Error → Result HorizonClient → Result (MarketHandler P W)
  with_client cfg caches templates (err e) = err (wrapped "failed to create Stellar client: " e)
  with_client cfg caches templates (both c e) = err (wrapped "failed to create Stellar client: " e)
  with_client cfg caches templates (ok horizon) =
      with_templates templates (handler_of cfg caches horizon)

  -- The part of `run` before the server; `templates` is the error of `template.New`.
  unfoldable pub assemble : AppConfig → Caches → Option Error → Result (MarketHandler P W)
  unfolding handler_of
  assemble cfg caches templates =
      if is_empty cfg.oracle_public_key
      then err (failure "ORACLE_PUBLIC_KEY environment variable is required")
      else if is_empty cfg.factory_contract
      then err (failure "MARKET_FACTORY_CONTRACT environment variable is required")
      else with_client cfg caches templates
          (new_horizon_client cfg.network_config.horizon_url cfg.network_config.network_passphrase)

  abbrev pub end_of : Served → Option Error
  end_of (server_failed e) = some (wrapped "server error: " e)
  end_of (stopped none) = none
  end_of (stopped (some e)) = some (wrapped "server shutdown failed: " e)

  abbrev pub serve_with :
      (Bytes → MarketHandler P W → Served) → Bytes → Result (MarketHandler P W) → Option Error
  serve_with serve port (ok h) = end_of (serve port h)
  serve_with serve port (err e) = some e
  serve_with serve port (both h e) = some e

  -- `run`, and its error; `serve` is the HTTP server until its end.
  unfoldable pub run :
      (Bytes → Bytes)
      → (Bytes → Bytes)
      → Caches
      → Option Error
      → (Bytes → MarketHandler P W → Served)
      → Option Error
  unfolding assemble
  run to_lower env caches templates serve =
      let cfg = parse_config to_lower env in
      serve_with serve cfg.port (assemble cfg caches templates)

  abbrev pub keep_hash : Bytes → List Bytes → List Bytes
  keep_hash hash rest = if is_empty hash then rest else hash ∷ rest

  unfoldable pub hashes_of : List (MarketState P) → List Bytes
  hashes_of [] = []
  hashes_of (st ∷ more) = keep_hash st.metadata_hash (hashes_of more)

  -- A warm-up of no hashes is none.
  abbrev pub warm :
      IpfsClient (gateway_of P W) P.quote → Result (List (MarketState P)) × State P → State P
  warm c (err e, s) = s
  warm c (both states e, s) = s
  warm c (ok states, s) = record s {
    world = warmup (gateway_of P W) P.quote c (hashes_of states) s.world;
  }

  abbrev pub warm_listed :
      FactoryService P
      → StateCache P
      → List ℕ
      → IpfsClient (gateway_of P W) P.quote
      → Result (List Bytes) × State P
      → State P
  warm_listed m cache order c (err e, s) = s
  warm_listed m cache order c (both ids e, s) = s
  warm_listed m cache order c (ok [], s) = s
  warm_listed m cache order c (ok (id ∷ ids), s) =
      warm c (get_market_states P m cache order (id ∷ ids) s)

  -- `order` is that of the goroutines that fetch the states.
  unfoldable pub warmup_ipfs_cache :
      FactoryService P
      → StateCache P
      → List ℕ
      → IpfsClient (gateway_of P W) P.quote
      → State P
      → State P
  unfolding hashes_of
  warmup_ipfs_cache m cache order c s = warm_listed m cache order c (list_markets P m s)
