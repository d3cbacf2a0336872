-- ===== src/Service/Factory.antt =====
-- internal/service/factory.go: the list of markets, the states of markets, and the deployment of a
-- market. The caches are those of package hot.
pub mod Laws
use total.Prelude.{
  ℕ, Bool, true, false, Option, none, some, List, [], ◌∷◌, ◌++◌, length, ◌&&◌, if◌then◌else◌,
}
use total.Prelude.Int.{ℤ, pos, ◌+ℤ◌, eqb_ℤ}
use total.Bytes.{Bytes, text, show_nat, is_empty}
use total.Errors.{
  Error, sentinel, Result, ok, err, both, Action, ◌>>=◌, ◌>>◌, during, lift, pure, fail, reject,
  plain, wrapped, factory_not_configured, invalid_metadata_hash, invalid_liquidity_param,
}
use total.Model.{TransactionResult, zero_float}
use total.Stellar.Builder.{Builder, build_deploy_market_tx, simulate_and_prepare_tx}
use total.Stellar.Queries.{
  build_list_markets_tx, build_get_state_tx, build_get_metadata_hash_tx,
  build_get_winning_outcome_tx,
}
use total.Soroban.Types.{u32_to_outcome}
use total.Soroban.ScVal.{ScVal, decode_i128, decode_bool, decode_u32}
use total.Soroban.Address.{decode_address, decode_vec, decode_string}
use total.Soroban.Client.{State, Client}
use total.Soroban.Invoker.Fee.{wrap_int64}
use total.Service.Amount.{safe_float_to_int64, scale}
use total.Service.Reading.{read_contract, check}
use total.Service.Events.{Cache}
use total.Platform.{Platform}

module _ (P : Platform) where
  open P use {floats}

  pub record MarketState : Type 0 where
    pub contract_id : Bytes
    pub yes_sold : ℤ
    pub no_sold : ℤ
    pub pool : ℤ
    pub resolved : Bool
    pub winning_outcome : Bytes
    pub metadata_hash : Bytes
    pub price_yes : floats.Float
    pub price_no : floats.Float

  -- `FactoryService`, without its logger.
  pub record FactoryService : Type 0 where
    pub soroban_client : Client
    pub tx_builder : Builder
    pub factory_contract : Bytes
    pub oracle_public_key : Bytes
    pub market_list_cache : Cache P.World (List Bytes)

  -- Addresses that cannot be decoded are left out.
  abbrev pub keep_address : Result Bytes → List Bytes → List Bytes
  keep_address (ok id) ids = id ∷ ids
  keep_address (err e) ids = ids
  keep_address (both id e) ids = ids

  unfoldable pub decode_addresses : List ScVal → List Bytes
  decode_addresses [] = []
  decode_addresses (a ∷ more) = keep_address (decode_address P a) (decode_addresses more)

  unfoldable pub fetch_market_list : FactoryService → Action (State P) (List Bytes)
  unfolding decode_addresses
  fetch_market_list m = do
    tx_xdr ← during "failed to build list_markets tx: " (
        build_list_markets_tx P m.tx_builder
          (record { user_public_key = m.oracle_public_key; factory_contract = m.factory_contract }))
    value ← read_contract P m.soroban_client "failed to simulate list_markets: " tx_xdr
    addresses ← during "failed to decode addresses: " (lift (decode_vec value))
    pure (decode_addresses addresses)

  abbrev pub remember_list :
      FactoryService → Result (List Bytes) × State P → Result (List Bytes) × State P
  remember_list m (ok ids, s) =
      (ok ids, record s { world = m.market_list_cache.store (text "all") ids s.world })
  remember_list m (err e, s) = (err e, s)
  remember_list m (both ids e, s) = (err e, s)

  -- What the cache finds is used even beside an error.
  unfoldable pub list_markets : FactoryService → Action (State P) (List Bytes)
  unfolding fetch_market_list
  list_markets m s =
      if is_empty m.factory_contract
      then (err (sentinel factory_not_configured), s)
      else let (found, w) = m.market_list_cache.look_up (text "all") s.world in
        elim found.0 [
          | some ids ↦ (ok ids, record s { world = w })
          | none ↦ remember_list m (fetch_market_list m (record s { world = w }))
        ]

  unfoldable pub get_metadata_hash : FactoryService → Bytes → Action (State P) Bytes
  get_metadata_hash m contract_id = do
    tx_xdr ← during "failed to build get_metadata_hash tx: " (
        build_get_metadata_hash_tx P m.tx_builder
          (record { user_public_key = m.oracle_public_key; contract_id = contract_id }))
    value ← read_contract P m.soroban_client "failed to simulate get_metadata_hash: " tx_xdr
    during "failed to decode metadata hash: " (lift (decode_string value))

  unfoldable pub get_winning_outcome : FactoryService → Bytes → Action (State P) Bytes
  get_winning_outcome m contract_id = do
    tx_xdr ← during "failed to build get_winning_outcome tx: " (
        build_get_winning_outcome_tx P m.tx_builder
          (record { user_public_key = m.oracle_public_key; contract_id = contract_id }))
    value ← read_contract P m.soroban_client "failed to simulate get_winning_outcome: " tx_xdr
    outcome_u32 ← during "failed to decode winning outcome: " (lift (decode_u32 value))
    during "failed to convert outcome: " (lift (u32_to_outcome outcome_u32))

  -- A failure is logged, and the text is empty.
  abbrev pub or_empty : Result Bytes × State P → Result Bytes × State P
  or_empty (ok b, s) = (ok b, s)
  or_empty (err e, s) = (ok [], s)
  or_empty (both b e, s) = (ok [], s)

  abbrev pub lenient : Action (State P) Bytes → Action (State P) Bytes
  lenient m s = or_empty (m s)

  -- The constants 0.5 and 0.01.
  abbrev pub half : floats.Float
  half = floats.constant 5 1

  abbrev pub one_percent : floats.Float
  one_percent = floats.constant 1 2

  unfoldable pub at_least_one_percent : floats.Float → floats.Float
  at_least_one_percent p = if floats.lt p one_percent then one_percent else p

  unfoldable pub normalized : floats.Float → floats.Float → floats.Float × floats.Float
  normalized p q = let sum = floats.add p q in (floats.div p sum, floats.div q sum)

  -- The sum of the quantities is an int64.
  unfoldable pub calculate_prices : ℤ → ℤ → floats.Float × floats.Float
  unfolding normalized at_least_one_percent
  calculate_prices yes_sold no_sold =
      if eqb_ℤ yes_sold (pos 0) && eqb_ℤ no_sold (pos 0)
      then (half, half)
      else let total = floats.of_int (wrap_int64 (yes_sold +ℤ no_sold)) in
        if floats.eq total (zero_float floats)
        then (half, half)
        else normalized (at_least_one_percent (floats.div (floats.of_int yes_sold) total))
            (at_least_one_percent (floats.div (floats.of_int no_sold) total))

  -- The four elements of `get_state`.
  pub record RawState : Type 0 where
    pub yes_sold : ℤ
    pub no_sold : ℤ
    pub pool : ℤ
    pub resolved : Bool

  abbrev pub first_four : List ScVal → Result (ScVal × (ScVal × (ScVal × ScVal)))
  first_four (a ∷ b ∷ c ∷ d ∷ rest) = ok (a, (b, (c, d)))
  first_four tuple =
      err (plain (text "expected 4 elements in state tuple, got " ++ show_nat (length tuple)))

  unfoldable pub decode_state : List ScVal → Action (State P) RawState
  decode_state tuple = do
    four ← lift (first_four tuple)
    yes_sold ← during "failed to decode yes_sold: " (lift (decode_i128 four.0))
    no_sold ← during "failed to decode no_sold: " (lift (decode_i128 four.1.0))
    pool ← during "failed to decode pool: " (lift (decode_i128 four.1.1.0))
    resolved ← during "failed to decode resolved: " (lift (decode_bool four.1.1.1))
    pure (record { yes_sold = yes_sold; no_sold = no_sold; pool = pool; resolved = resolved })

  unfoldable pub winning_outcome_of : FactoryService → Bytes → Bool → Action (State P) Bytes
  winning_outcome_of m contract_id true = lenient (get_winning_outcome m contract_id)
  winning_outcome_of m contract_id false = pure []

  unfoldable pub fetch_market_state : FactoryService → Bytes → Action (State P) MarketState
  unfolding decode_state winning_outcome_of
  fetch_market_state m contract_id = do
    tx_xdr ← during "failed to build get_state tx: " (
        build_get_state_tx P m.tx_builder
          (record { user_public_key = m.oracle_public_key; contract_id = contract_id }))
    value ← read_contract P m.soroban_client "failed to simulate get_state: " tx_xdr
    tuple ← during "failed to decode state tuple: " (lift (decode_vec value))
    raw ← decode_state tuple
    winning_outcome ← winning_outcome_of m contract_id raw.resolved
    metadata_hash ← lenient (get_metadata_hash m contract_id)
    pure (record {
      contract_id = contract_id;
      yes_sold = raw.yes_sold;
      no_sold = raw.no_sold;
      pool = raw.pool;
      resolved = raw.resolved;
      winning_outcome = winning_outcome;
      metadata_hash = metadata_hash;
      price_yes = (calculate_prices raw.yes_sold raw.no_sold).0;
      price_no = (calculate_prices raw.yes_sold raw.no_sold).1;
    })
