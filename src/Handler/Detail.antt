-- ===== src/Handler/Detail.antt =====
-- internal/handler/market.go: the page of a market, and the page of an outcome.
pub mod Laws
use total.Prelude.{
  ℕ, String, Bool, true, false, ◌&&◌, not, Option, none, some, List, [], ◌∷◌, ◌++◌, if◌then◌else◌,
}
use total.Prelude.Int.{pos}
use total.Bytes.{Bytes, text, is_empty, bytes_eq, trim_space, has_suffix}
use total.Errors.{Error, Result, ok, err, both}
use total.Model.{Market, MarketMetadata, Outcome, zero_float}
use total.Chart.{render_price_chart, default_width, default_height}
use total.Soroban.Client.{State}
use total.Service.Events.{EventService, TradeEvent, get_trade_events}
use total.Service.Factory.{FactoryService, MarketState}
use total.Service.States.{get_market_states}
use total.Service.Market.{UserBalance, get_balance}
use total.Handler.ErrorCode.{bad_request, not_found}
use total.Handler.ChartPoints.{events_to_chart_points}
use total.Handler.Web.{
  Request, Web, MarketHandler, MarketPage, OutcomePage, Common, common, Reply, http_error, page,
  aborted, market_page, outcome_page, account_id_from_cookie, Schedule, write_error,
}
use total.Handler.Trade.{configured, not_configured}
use total.Handler.Views.{describe, market_title, unscaled}
use total.Platform.{Platform}

abbrev pub load_failed : Bytes
load_failed = text "Failed to load balance — please try again."

module _ (P : Platform) (W : Web P) where
  open P use {floats}

  -- The market of a state, before its metadata: the fields that are not set are zero.
  unfoldable pub market_of : MarketState P → Market floats
  unfolding unscaled
  market_of st = record {
    id = st.contract_id;
    question = [];
    description = [];
    resolution_source = [];
    category = [];
    end_date = 0;
    collateral_asset = [];
    liquidity_param = zero_float floats;
    yes_sold = unscaled P W st.yes_sold;
    no_sold = unscaled P W st.no_sold;
    price_yes = st.price_yes;
    price_no = st.price_no;
    resolved_at = none;
    resolution =
        if st.resolved && not (is_empty st.winning_outcome) then st.winning_outcome else [];
    created_at = 0;
    metadata_hash = [];
  }

  -- The metadata on the page of a market, of which `id` and `hash` are those of the request and of
  -- the state.
  abbrev pub detailed :
      Bytes → Bytes → Market floats → Option (Result MarketMetadata) → Market floats
  detailed id hash market none = record market { question = market_title id }
  detailed id hash market (some (ok m)) = record market {
    question = m.question;
    description = m.description;
    resolution_source = m.resolution_source;
    category = m.category;
    end_date = m.end_date;
    created_at = m.created_at;
    metadata_hash = hash;
  }
  detailed id hash market (some (err e)) = record market {
    question = market_title id;
    metadata_hash = hash;
  }
  detailed id hash market (some (both m e)) = record market {
    question = market_title id;
    metadata_hash = hash;
  }

  -- The same on the page of an outcome.
  abbrev pub outlined :
      Bytes → Bytes → Market floats → Option (Result MarketMetadata) → Market floats
  outlined id hash market none = record market { question = market_title id }
  outlined id hash market (some (ok m)) = record market {
    question = m.question;
    description = m.description;
    metadata_hash = hash;
  }
  outlined id hash market (some (err e)) = record market {
    question = market_title id;
    metadata_hash = hash;
  }
  outlined id hash market (some (both m e)) = record market {
    question = market_title id;
    metadata_hash = hash;
  }

  -- The state of the one market that is asked for, or the reply without it.
  abbrev pub on_state :
      MarketHandler P W
      → Request
      → Result (List (MarketState P)) × State P
      → (MarketState P → State P → Reply P × State P)
      → Reply P × State P
  on_state h r (err e, s) k = (write_error P W h r e, s)
  on_state h r (both states e, s) k = (write_error P W h r e, s)
  on_state h r (ok [], s) k = (http_error (text "Market not found") not_found, s)
  on_state h r (ok (st ∷ more), s) k = k st s

  abbrev pub Balance : Type 0
  Balance = Option (UserBalance P) × Bytes

  abbrev pub balance_of : Result (UserBalance P) × State P → Balance × State P
  balance_of (ok b, s) = ((some b, []), s)
  balance_of (err e, s) = ((none, load_failed), s)
  balance_of (both b e, s) = ((none, load_failed), s)

  abbrev pub read_balance :
      MarketHandler P W → Schedule → Bytes → Bytes → State P → Balance × State P
  read_balance h o id account s =
      balance_of (get_balance P o.yes_first h.market_service id account s)

  -- On the page of a market the account may come from the query.
  unfoldable pub checked_balance :
      MarketHandler P W → Schedule → Bytes → Bytes → State P → Balance × State P
  checked_balance h o id account s =
      if is_empty account then ((none, []), s) else elim (P.parse_address account) [
        | some e ↦ ((none, text "Invalid Stellar public key format."), s)
        | none ↦ read_balance h o id account s
      ]

  unfoldable pub cookie_balance :
      MarketHandler P W → Schedule → Bytes → Bytes → State P → Balance × State P
  cookie_balance h o id account s =
      if is_empty account then ((none, []), s) else read_balance h o id account s

  -- The events of a market, and what went wrong.
  abbrev pub Events : Type 0
  Events = List (TradeEvent P) × Bytes

  abbrev pub events_of : Result (List (TradeEvent P)) × State P → Events × State P
  events_of (ok events, s) = ((events, []), s)
  events_of (err e, s) = (([], text "Failed to load trade history."), s)
  events_of (both events e, s) = (([], text "Failed to load trade history."), s)

  unfoldable pub load_events : MarketHandler P W → Bytes → State P → Events × State P
  load_events h id s = elim h.event_service [
    | none ↦ (([], []), s)
    | some m ↦ events_of (get_trade_events P m id s)
  ]

  -- The chart of the events, "" where there are none; `none` is a panic.
  unfoldable pub chart_of : List (TradeEvent P) → Option Bytes
  chart_of [] = some []
  chart_of (evt ∷ more) =
      render_price_chart floats W.clock (events_to_chart_points P (evt ∷ more)) (pos default_width)
        (pos default_height)

  -- `accountKey`, if there is one, and otherwise the cookie's account.
  unfoldable pub account_of : Request → Bytes
  account_of r =
      let key = trim_space (r.query "account") in
      if is_empty key then account_id_from_cookie P r else key

  -- The page of a market, when all has been read.
  abbrev pub market_reply :
      MarketHandler P W → Request → Market floats → Balance → Events → Option Bytes → Reply P
  market_reply h r market balance events none = aborted
  market_reply h r market balance events (some chart) = page (
      market_page
        (record {
          market = market;
          oracle_public_key = h.oracle_public_key;
          price_chart = chart;
          trade_events = events.0;
          events_error = events.1;
          user_balance = balance.0;
          balance_error = balance.1;
        })
        (record (common P W h r "markets") { account_id = account_of r }))

  unfoldable pub show_market :
      MarketHandler P W → Schedule → Request → MarketState P → State P → Reply P × State P
  unfolding market_of checked_balance load_events chart_of account_of
  show_market h o r st s =
      let (found, s1) = describe P W h st.metadata_hash s in
      let (balance, s2) = checked_balance h o r.path_id (account_of r) s1 in
      let (events, s3) = load_events h r.path_id s2 in
      (
        market_reply h r (detailed r.path_id st.metadata_hash (market_of st) found) balance events
            (chart_of events.0),
        s3,
      )

  unfoldable pub handle_market_detail :
      Schedule → MarketHandler P W → Request → State P → Reply P × State P
  unfolding show_market
  handle_market_detail o h r s =
      if is_empty r.path_id
      then (http_error (text "Contract ID required") bad_request, s)
      else elim (configured h.factory_service) [
        | none ↦ (not_configured P W, s)
        | some m ↦
            on_state h r (get_market_states P m h.state_cache o.states_order (r.path_id ∷ []) s)
              (show_market h o r)
      ]

  -- The outcome that a path ends with.
  unfoldable pub path_outcome : Bytes → Option Outcome
  path_outcome path =
      if has_suffix path (text "/yes")
      then some (text "YES")
      else if has_suffix path (text "/no")
      then some (text "NO")
      else none

  unfoldable pub outcome_price_of : Outcome → Market floats → floats.Float
  outcome_price_of outcome market =
      if bytes_eq outcome (text "YES") then market.price_yes else market.price_no

  unfoldable pub outcome_reply :
      MarketHandler P W → Request → Outcome → Market floats → Balance → Reply P
  unfolding outcome_price_of
  outcome_reply h r outcome market balance =
      let price = outcome_price_of outcome market in
      page (
        outcome_page
          (record {
            market = market;
            outcome = outcome;
            outcome_price = price;
            og_title = text "Vote " ++ (outcome ++ (text ": " ++ market.question));
            og_description =
                outcome
                ++ (text " is at "
                    ++ (floats.show_fixed 0 (floats.mul price (floats.of_int (pos 100)))
                        ++ text "% — Trade on Total"));
            user_balance = balance.0;
            balance_error = balance.1;
            network_passphrase = h.network_passphrase;
          })
          (common P W h r "markets"))

  unfoldable pub show_outcome :
      MarketHandler P W → Schedule → Request → Outcome → MarketState P → State P → Reply P × State P
  unfolding market_of cookie_balance outcome_reply
  show_outcome h o r outcome st s =
      let (found, s1) = describe P W h st.metadata_hash s in
      let (balance, s2) = cookie_balance h o r.path_id (account_id_from_cookie P r) s1 in
      (
        outcome_reply h r outcome (outlined r.path_id st.metadata_hash (market_of st) found)
            balance,
        s2,
      )

  unfoldable pub handle_outcome_page :
      Schedule → MarketHandler P W → Request → State P → Reply P × State P
  unfolding path_outcome show_outcome
  handle_outcome_page o h r s =
      if is_empty r.path_id
      then (http_error (text "Contract ID required") bad_request, s)
      else elim (path_outcome r.path) [
        | none ↦ (http_error (text "Invalid outcome") bad_request, s)
        | some outcome ↦ elim (configured h.factory_service) [
          | none ↦ (not_configured P W, s)
          | some m ↦
              on_state h r (get_market_states P m h.state_cache o.states_order (r.path_id ∷ []) s)
                (show_outcome h o r outcome)
        ]
      ]
