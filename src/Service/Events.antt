-- ===== src/Service/Events.antt =====
-- internal/service/events.go: the trade events of a market, fetched, parsed and cached.
pub mod Laws
use total.Prelude.{
  ℕ, ◌+◌, ◌-◌, Bool, true, false, Option, none, some, List, [], ◌∷◌, ◌++◌, ltb, ◌==◌, ◌&&◌, length,
  if◌then◌else◌,
}
use total.Prelude.Int.{ℤ, pos}
use total.Bytes.{Bytes, text, show_nat}
use total.Errors.{
  Error, Result, ok, err, both, Action, ◌>>=◌, during, lift, pure, fail, plain, wrap, wrapped,
  failure,
}
use total.Soroban.Types.{ContractEvent, GetEventsParams, EventFilter, u32_to_outcome}
use total.Soroban.ScVal.{ScVal, sc_symbol, encode_symbol, decode_u32}
use total.Soroban.Address.{relabel_result, decode_address, decode_vec, parse_return_value}
use total.Soroban.Client.{State, Client, get_latest_ledger, get_events}
use total.Service.Amount.{scale}
use total.Service.Reading.{decode_pair}
use total.Platform.{Platform}

abbrev pub lookback_ledgers : ℕ
lookback_ledgers = 17280

-- The first ledger that is asked for, given the latest.
unfoldable pub start_ledger : ℕ → ℕ
start_ledger latest = if ltb lookback_ledgers latest then latest - lookback_ledgers else 0

unfoldable pub symbol_of : ScVal → Result Bytes
symbol_of (sc_symbol s) = ok s
symbol_of _ = err (failure "expected symbol topic")

unfoldable pub decode_amounts : List ScVal → Result (ℤ × ℤ)
decode_amounts (a ∷ b ∷ rest) =
    decode_pair "failed to decode amount: " "failed to decode cost: " (a ∷ b ∷ rest)
decode_amounts data_tuple =
    err (plain (text "expected 2 data elements, got " ++ show_nat (length data_tuple)))

-- A cache of package hot: a value with whether it was found, and an error; a stored value.
pub record Cache (World : Type 0) (V : Type 0) : Type 0 where
  pub look_up : Bytes → World → (Option V × Option Error) × World
  pub store : Bytes → V → World → World

module _ (P : Platform) where
  open P use {floats}

  pub record TradeEvent : Type 0 where
    pub kind : Bytes
    pub user : Bytes
    pub outcome : Bytes
    pub amount : floats.Float
    pub cost : floats.Float
    pub timestamp : ℕ
    pub ledger : ℕ

  abbrev topics_of : List Bytes → Result (Bytes × (Bytes × Bytes))
  topics_of (a ∷ b ∷ c ∷ rest) = ok (a, (b, c))
  topics_of topics =
      err (plain (text "expected at least 3 topics, got " ++ show_nat (length topics)))

  unfoldable pub parse_close_time : Bytes → Result ℕ
  parse_close_time s = elim (P.parse_time s) [
    | ok t ↦ ok t
    | err e ↦
        err (wrap (text "failed to parse ledger close time " ++ (P.quote s ++ text ": ")) e [])
    | both t e ↦
        err (wrap (text "failed to parse ledger close time " ++ (P.quote s ++ text ": ")) e [])
  ]

  -- The steps of `parseTradeEvent`; they read no state.
  unfoldable pub parse_steps : ContractEvent → Action (Unit {0}) TradeEvent
  parse_steps evt = do
    topics ← lift (topics_of evt.topic)
    kind_val ← during "failed to parse kind topic: " (lift (parse_return_value P topics.0))
    kind ← lift (symbol_of kind_val)
    user_val ← during "failed to parse user topic: " (lift (parse_return_value P topics.1.0))
    user ← during "failed to decode user address: " (lift (decode_address P user_val))
    outcome_val ← during "failed to parse outcome topic: " (lift (parse_return_value P topics.1.1))
    outcome_u32 ← during "failed to decode outcome: " (lift (decode_u32 outcome_val))
    outcome ← during "failed to convert outcome: " (lift (u32_to_outcome outcome_u32))
    data_val ← during "failed to parse event data: " (lift (parse_return_value P evt.value))
    data_tuple ← during "failed to decode event data tuple: " (lift (decode_vec data_val))
    amounts ← lift (decode_amounts data_tuple)
    timestamp ← lift (parse_close_time evt.ledger_closed_at)
    pure (record {
      kind = kind;
      user = user;
      outcome = outcome;
      amount = floats.div (floats.of_int amounts.0) (scale floats);
      cost = floats.div (floats.of_int amounts.1) (scale floats);
      timestamp = timestamp;
      ledger = evt.ledger;
    })

  unfoldable pub parse_trade_event : ContractEvent → Result TradeEvent
  unfolding parse_steps
  parse_trade_event evt = (parse_steps evt tt).0

  -- What the loop over the events has gathered.
  pub record Tally : Type 0 where
    pub events : List TradeEvent
    pub parse_errors : ℕ
    pub last_parse_error : Option Error
    pub successful : ℕ

  abbrev pub failed : Tally → Error → Tally
  failed t e = record t {
    parse_errors = t.parse_errors + 1;
    last_parse_error = some e;
    successful = t.successful + 1;
  }

  -- An event of a successful call is counted, and kept if it can be parsed.
  abbrev pub count : Tally → Result TradeEvent → Tally
  count t (ok parsed) = record t {
    events = t.events ++ (parsed ∷ []);
    successful = t.successful + 1;
  }
  count t (err e) = failed t e
  count t (both parsed e) = failed t e

  unfoldable pub collect : Tally → List ContractEvent → Tally
  collect t [] = t
  collect t (evt ∷ more) =
      let t' = if evt.in_successful_contract_call then count t (parse_trade_event evt) else t in
      collect t' more

  -- An error if there were events of successful calls and none could be parsed.
  unfoldable pub conclude : Tally → Result (List TradeEvent)
  conclude t = elim t.last_parse_error [
    | none ↦ ok t.events
    | some e ↦
        if ltb 0 t.parse_errors && (length t.events == 0 && ltb 0 t.successful)
        then err (
            wrap (text "all " ++ (show_nat t.parse_errors ++ text " events failed to parse: ")) e
              [])
        else ok t.events
  ]

  unfoldable pub gather : List ContractEvent → Result (List TradeEvent)
  unfolding collect conclude
  gather evts = conclude (
      collect (record { events = []; parse_errors = 0; last_parse_error = none; successful = 0 })
        evts)

  unfoldable pub topic_filter : Bytes → Bytes → EventFilter
  topic_filter contract_id topic = record {
    kind = text "contract";
    contract_ids = contract_id ∷ [];
    topics = (topic ∷ text "*" ∷ text "*" ∷ []) ∷ [];
  }

  unfoldable pub encode_symbol_base64 : Bytes → Result Bytes
  encode_symbol_base64 s =
      relabel_result "failed to marshal symbol: " (P.marshal_val (encode_symbol s))

  unfoldable pub fetch_events : Client → Bytes → Action (State P) (List TradeEvent)
  unfolding gather
  fetch_events c contract_id = do
    latest ← during "failed to get latest ledger: " (get_latest_ledger P c)
    buy ← during "failed to encode buy topic: " (lift (encode_symbol_base64 (text "buy")))
    sell ← during "failed to encode sell topic: " (lift (encode_symbol_base64 (text "sell")))
    let params : GetEventsParams = record {
      start_ledger = start_ledger latest.sequence;
      filters = topic_filter contract_id buy ∷ topic_filter contract_id sell ∷ [];
      pagination = some (record { limit = 200; cursor = [] });
    }
    result ← during "failed to get events: " (get_events P c params)
    lift (gather result.events)

  -- `EventService`: its client and its cache.
  pub record EventService : Type 0 where
    pub soroban_client : Client
    pub cache : Cache P.World (List TradeEvent)

  abbrev pub remember :
      EventService → Bytes → Result (List TradeEvent) × State P → Result (List TradeEvent) × State P
  remember m id (ok events, s) = (ok events, record s { world = m.cache.store id events s.world })
  remember m id (err e, s) = (err e, s)
  remember m id (both events e, s) = (err e, s)

  -- A cached value is used if it comes with no error.
  unfoldable pub get_trade_events : EventService → Bytes → Action (State P) (List TradeEvent)
  unfolding fetch_events
  get_trade_events m contract_id s =
      let (found, w) = m.cache.look_up contract_id s.world in
      elim found.0 [
        | none ↦
            remember m contract_id
              (fetch_events m.soroban_client contract_id (record s { world = w }))
        | some events ↦ elim found.1 [
          | none ↦ (ok events, record s { world = w })
          | some e ↦
              remember m contract_id
                (fetch_events m.soroban_client contract_id (record s { world = w }))
        ]
      ]
