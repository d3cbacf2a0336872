-- ===== src/Handler/Views.antt =====
-- internal/handler/market.go: the list of markets and the oracle's page.
pub mod Laws
use total.Prelude.{
  ℕ, Bool, true, false, not, ◌&&◌, Option, none, some, List, [], ◌∷◌, ◌++◌, length, get_elem?,
  replicate, if◌then◌else◌,
}
use total.Prelude.Int.{pos}
use total.Bytes.{Bytes, text, is_empty}
use total.Errors.{Result, ok, err, both}
use total.Model.{MarketMetadata, zero_float}
use total.Config.{short_id}
use total.Soroban.Client.{State}
use total.Service.Amount.{scale}
use total.Service.Factory.{FactoryService, MarketState, list_markets}
use total.Service.States.{get_market_states, set_at}
use total.Ipfs.Store.{get_json}
use total.Handler.Web.{
  Request, Web, MarketHandler, MarketView, common, Reply, page, markets_page, oracle_page, Schedule,
  gateway_of,
}
use total.Handler.Trade.{configured}
use total.Platform.{Platform}

abbrev pub market_title : Bytes → Bytes
market_title id = text "Market " ++ short_id id

module _ (P : Platform) (W : Web P) where
  open P use {floats}

  -- The metadata of a hash, where there are a hash and an IPFS client.
  unfoldable pub describe :
      MarketHandler P W → Bytes → State P → Option (Result MarketMetadata) × State P
  describe h hash s = if is_empty hash then (none, s) else elim h.ipfs_client [
    | none ↦ (none, s)
    | some c ↦
        let (found, w) = get_json (gateway_of P W) P.quote W.unmarshal_metadata c hash s.world in
        (some found, record s { world = w })
  ]

  -- An amount of tokens that the contract keeps in its smallest units.
  unfoldable pub unscaled : total.Prelude.Int.ℤ → floats.Float
  unscaled n = floats.div (floats.of_int n) (scale floats)

  abbrev pub empty_view : MarketView P
  empty_view = record {
    id = [];
    question = [];
    description = [];
    price_yes = zero_float floats;
    price_no = zero_float floats;
    yes_sold = zero_float floats;
    no_sold = zero_float floats;
    is_resolved = false;
    resolution = [];
    liquidity_param = zero_float floats;
    metadata_hash = [];
    metadata_error = [];
  }

  unfoldable pub view_of_state : MarketState P → MarketView P
  unfolding unscaled
  view_of_state st = record empty_view {
    id = st.contract_id;
    price_yes = st.price_yes;
    price_no = st.price_no;
    yes_sold = unscaled st.yes_sold;
    no_sold = unscaled st.no_sold;
    is_resolved = st.resolved;
    metadata_hash = st.metadata_hash;
  }

  abbrev pub described_view : MarketView P → Option (Result MarketMetadata) → MarketView P
  described_view view none = record view { question = market_title view.id }
  described_view view (some (ok m)) = record view {
    question = m.question;
    description = m.description;
  }
  described_view view (some (err e)) = record view {
    question = market_title view.id;
    metadata_error = text "Failed to load market details from IPFS";
  }
  described_view view (some (both m e)) = record view {
    question = market_title view.id;
    metadata_error = text "Failed to load market details from IPFS";
  }

  -- The goroutine of a state.
  unfoldable pub build_view : MarketHandler P W → MarketState P → State P → MarketView P × State P
  unfolding describe view_of_state
  build_view h st s =
      let (found, s') = describe h st.metadata_hash s in
      (described_view (view_of_state st) found, s')

  abbrev pub build_index :
      MarketHandler P W
      → ℕ
      → Option (MarketState P)
      → List (MarketView P) × State P
      → List (MarketView P) × State P
  build_index h i none now = now
  build_index h i (some st) (views, s) =
      let (view, s') = build_view h st s in (set_at i view views, s')

  -- The goroutines of the indices, in an order.
  unfoldable pub build_all :
      MarketHandler P W
      → List (MarketState P)
      → List ℕ
      → List (MarketView P) × State P
      → List (MarketView P) × State P
  unfolding build_view
  build_all h states [] now = now
  build_all h states (i ∷ order) now =
      build_all h states order (build_index h i (get_elem? states i) now)

  unfoldable pub build_market_views :
      MarketHandler P W → List ℕ → List (MarketState P) → State P → List (MarketView P) × State P
  unfolding build_all
  build_market_views h order states s =
      build_all h states order (replicate (length states) empty_view, s)

  -- The states that came back, whatever the error: there are none beside one.
  abbrev pub states_of : Result (List (MarketState P)) → List (MarketState P)
  states_of (ok states) = states
  states_of (err e) = []
  states_of (both states e) = states

  abbrev pub failed_list : MarketHandler P W → Request → Bytes → Reply P
  failed_list h r message =
      page (markets_page [] h.oracle_public_key (some message) (common P W h r "markets"))

  abbrev pub list_views :
      MarketHandler P W
      → Request
      → Schedule
      → FactoryService P
      → Result (List Bytes) × State P
      → Reply P × State P
  list_views h r o m (err e, s) = (failed_list h r (text "Failed to fetch markets from factory"), s)
  list_views h r o m (both ids e, s) =
      (failed_list h r (text "Failed to fetch markets from factory"), s)
  list_views h r o m (ok ids, s) =
      let (states, s') = get_market_states P m h.state_cache o.states_order ids s in
      let (views, s'') = build_market_views h o.views_order (states_of states) s' in
      (page (markets_page views h.oracle_public_key none (common P W h r "markets")), s'')

  unfoldable pub handle_list_markets :
      Schedule → MarketHandler P W → Request → State P → Reply P × State P
  unfolding configured build_market_views
  handle_list_markets o h r s = elim (configured h.factory_service) [
    | none ↦ (failed_list h r (text "Factory contract not configured"), s)
    | some m ↦ list_views h r o m (list_markets P m s)
  ]

  -- The markets of the oracle's page, and what went wrong.
  abbrev pub oracle_states :
      MarketHandler P W
      → Schedule
      → Result (List (MarketState P)) × State P
      → (List (MarketView P) × Bytes) × State P
  oracle_states h o (ok states, s) =
      let (views, s') = build_market_views h o.views_order states s in ((views, []), s')
  oracle_states h o (err e, s) = (([], text "Failed to load market states"), s)
  oracle_states h o (both states e, s) = (([], text "Failed to load market states"), s)

  abbrev pub oracle_markets :
      MarketHandler P W
      → Schedule
      → FactoryService P
      → Result (List Bytes) × State P
      → (List (MarketView P) × Bytes) × State P
  oracle_markets h o m (ok ids, s) =
      oracle_states h o (get_market_states P m h.state_cache o.states_order ids s)
  oracle_markets h o m (err e, s) = (([], text "Failed to load markets from factory"), s)
  oracle_markets h o m (both ids e, s) = (([], text "Failed to load markets from factory"), s)

  unfoldable pub oracle_reply :
      MarketHandler P W
      → Request
      → Bytes
      → (List (MarketView P) × Bytes) × State P
      → Reply P × State P
  oracle_reply h r factory ((views, problem), s) = (
    page (
        oracle_page
          (record {
            oracle_public_key = h.oracle_public_key;
            default_liquidity_param = floats.of_int (pos 100);
            factory_contract = factory;
            markets = views;
            markets_error = problem;
          })
          (common P W h r "oracle")),
    s,
  )

  unfoldable pub handle_oracle_admin :
      Schedule → MarketHandler P W → Request → State P → Reply P × State P
  unfolding configured oracle_reply
  handle_oracle_admin o h r s = elim (configured h.factory_service) [
    | none ↦ oracle_reply h r [] (([], []), s)
    | some m ↦ oracle_reply h r m.factory_contract (oracle_markets h o m (list_markets P m s))
  ]
