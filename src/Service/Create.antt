-- ===== src/Service/Create.antt =====
-- internal/service: the constructors of the services, and the loaders that their caches call in the
-- background for entries that have expired.
use total.Prelude.{Option, none, some, List, [], ◌∷◌, ◌++◌}
use total.Bytes.{Bytes, text}
use total.Errors.{Result, ok, err, both}
use total.Soroban.Client.{State, Client}
use total.Stellar.Horizon.{HorizonClient}
use total.Stellar.Builder.{Builder}
use total.Service.Reading.{MarketService}
use total.Service.Events.{Cache, EventService, TradeEvent}
use total.Service.Factory.{FactoryService, MarketState, fetch_market_state, fetch_market_list}
use total.Platform.{Platform}

unfoldable pub new_market_service : HorizonClient → Client → Builder → Bytes → MarketService
new_market_service stellar soroban builder oracle = record {
  stellar_client = stellar;
  soroban_client = soroban;
  tx_builder = builder;
  oracle_public_key = oracle;
}

module _ (P : Platform) where
  -- `NewEventService` panics without a client.
  unfoldable pub new_event_service :
      Option Client → Cache P.World (List (TradeEvent P)) → Option (EventService P)
  new_event_service none cache = none
  new_event_service (some c) cache = some (record { soroban_client = c; cache = cache })

  -- `NewFactoryService`, with the cache of the list that it builds.
  unfoldable pub new_factory_service :
      Client → Builder → Bytes → Bytes → Cache P.World (List Bytes) → FactoryService P
  new_factory_service soroban builder factory oracle cache = record {
    soroban_client = soroban;
    tx_builder = builder;
    factory_contract = factory;
    oracle_public_key = oracle;
    market_list_cache = cache;
  }

  abbrev pub keep_state :
      Bytes → Result (MarketState P) → List (Bytes × MarketState P) → List (Bytes × MarketState P)
  keep_state id (ok st) loaded = loaded ++ ((id, st) ∷ [])
  keep_state id (err e) loaded = loaded
  keep_state id (both st e) loaded = loaded

  -- The loader of the states; the map it fills is a list of pairs, and its error is always nil.
  unfoldable pub load_states :
      FactoryService P
      → List Bytes
      → List (Bytes × MarketState P)
      → State P
      → List (Bytes × MarketState P) × State P
  load_states m [] loaded s = (loaded, s)
  load_states m (id ∷ more) loaded s =
      let (r, s') = fetch_market_state P m id s in load_states m more (keep_state id r loaded) s'

  abbrev pub single_list : Result (List Bytes) → Result (List (Bytes × List Bytes))
  single_list (ok ids) = ok ((text "all", ids) ∷ [])
  single_list (err e) = err e
  single_list (both ids e) = err e

  -- The loader of the list.
  unfoldable pub load_market_list :
      FactoryService P → State P → Result (List (Bytes × List Bytes)) × State P
  load_market_list m s = let (r, s') = fetch_market_list P m s in (single_list r, s')
