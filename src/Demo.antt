-- ===== src/Demo.antt =====
-- A small platform for the tests: a server that answers from a list of replies, keys and texts that
-- decode to themselves, and floats with two decimals that round to multiples of 1024 from 2⁵³ on.
pub mod Site
use total.Prelude.{
  ℕ, ◌+◌, ◌-◌, ◌*◌, ◌/◌, ◌^◌, false, none, some, List, [], ◌∷◌, ltb, leb, ◌==◌, if◌then◌else◌,
  replicate,
}
use total.Prelude.Int.{ℤ, pos, negsuc}
use total.Bytes.{Bytes, text, show_nat, parse_digits}
use total.Errors.{Result, ok, err, failure}
use total.Soroban.Types.{RpcResponse, SimulateTransactionResult, GetTransactionResult}
use total.Soroban.ScVal.{
  ScVal, sc_vec, cons, nil, encode_i128, sc_bool, sc_symbol, sc_address, sc_u32, account_address,
}
use total.Soroban.Client.{State, Client}
use total.Soroban.Invoker.{ContractInvoker}
use total.Stellar.Horizon.{HorizonClient}
use total.Stellar.Builder.{Builder}
use total.Service.Events.{Cache}
use total.Service.Factory.{FactoryService}
use total.Service.Reading.{MarketService}
use total.Platform.{
  Floats, Platform, Exchange, not_sent, received, Envelope, envelope_tx, Transaction, Operation,
  invoke_host_function,
}

abbrev pub nearest : ℕ → ℕ
nearest n = if ltb n (2 ^ 53) then n else (n + 512) / 1024 * 1024

abbrev pub float_of : ℤ → ℕ
float_of (pos n) = nearest n * 100
float_of (negsuc n) = 0

-- A text of digits is their number.
abbrev pub demo_parse : Bytes → Result ℕ
demo_parse s = elim (parse_digits s) [ none ↦ err (failure "no number") | some n ↦ ok (n * 100) ]

abbrev pub demo_floats : Floats
demo_floats = record {
  Float = ℕ;
  lt = ltb;
  le = leb;
  eq = λ a b. a == b;
  add = λ a b. a + b;
  sub = λ a b. a - b;
  mul = λ a b. a * b / 100;
  div = λ a b. a * 100 / b;
  of_int = float_of;
  constant = λ n k. n * 100 / 10 ^ k;
  truncate = λ a. pos (a / 100);
  is_nan = λ a. false;
  is_inf = λ a. false;
  exp = λ a. a;
  log = λ a. a;
  larger = λ a b. if ltb a b then b else a;
  parse = demo_parse;
  show_g = show_nat;
  show_fixed = λ k a. show_nat (a / 100);
}

-- A reply is a number: the status of a transaction, or any simulation.
abbrev pub reply_status : ℕ → Bytes
reply_status n =
    if n == 0
    then text "NOT_FOUND"
    else if n == 1
    then text "SUCCESS"
    else if n == 2
    then text "FAILED"
    else text "PENDING"

abbrev pub reply_transaction : ℕ → GetTransactionResult
reply_transaction n = record {
  status = reply_status n;
  latest_ledger = 9;
  latest_ledger_close_time = [];
  oldest_ledger = 1;
  oldest_ledger_close_time = [];
  ledger = 8;
  created_at = [];
  application_order = pos 1;
  fee_bump = false;
  envelope_xdr = [];
  result_xdr = text "AAAA";
  result_meta_xdr = [];
  return_value = [];
}

abbrev pub reply_simulate : ℕ → SimulateTransactionResult
reply_simulate n = record {
  transaction_data = [];
  min_resource_fee = text "1000";
  events = [];
  results = record { auth = []; xdr = text "Q" } ∷ [];
  cost = none;
  restore_preamble = none;
  state_changes = [];
  latest_ledger = 1;
  error = [];
}

abbrev pub demo_post : Bytes → Bytes → List ℕ → Exchange × List ℕ
demo_post url body [] = (not_sent (failure "no server"), [])
demo_post url body (n ∷ ns) = (received (n ∷ []), ns)

abbrev pub demo_response : Bytes → Result (RpcResponse ℕ)
demo_response [] = err (failure "no response")
demo_response (n ∷ ns) = ok (record { jsonrpc = text "2.0"; id = pos 1; result = n; error = none })

-- A tuple for Q, and for B, U and O what the topics of a purchase hold.
abbrev pub demo_tuple : ScVal
demo_tuple = sc_vec (
    cons (encode_i128 (pos 30_000_000)) (
      cons (encode_i128 (pos 5_000_000))
        (cons (encode_i128 (pos 9_000_000)) (cons (sc_bool false) nil))))

abbrev pub demo_val : Bytes → ScVal
demo_val [] = demo_tuple
demo_val (c ∷ cs) =
    if c == b'B'
    then sc_symbol (text "buy")
    else if c == b'U'
    then sc_address (account_address (text "u"))
    else if c == b'O'
    then sc_u32 0
    else demo_tuple

abbrev pub demo_envelope :
    Envelope
      (Transaction (Unit {0}) (List (Operation (Unit {0}) (Unit {0}) (Unit {0}))) (Unit {0}))
      (Unit {0})
demo_envelope = envelope_tx (record {
  fee = 100;
  soroban_data = none;
  operations = invoke_host_function tt [] ∷ [];
  rest = tt;
})

abbrev pub demo : Platform
demo = record {
  floats = demo_floats;
  World = List ℕ;
  context_error = λ w. none;
  post = demo_post;
  Raw = ℕ;
  marshal_request = λ r. ok r.method;
  unmarshal_response = demo_response;
  unmarshal_health = λ n. err (failure "no health");
  unmarshal_network = λ n. err (failure "no network");
  unmarshal_latest_ledger = λ n. err (failure "no ledger");
  unmarshal_simulate = λ n. ok (reply_simulate n);
  unmarshal_send = λ n. err (failure "not sent");
  unmarshal_transaction = λ n. ok (reply_transaction n);
  unmarshal_events = λ n. err (failure "no events");
  unmarshal_ledger_entries = λ n. err (failure "no entries");
  strkey_decode = λ v s. ok s;
  strkey_encode = λ v s. ok s;
  parse_address = λ s. none;
  Account = Bytes;
  account_detail = λ key w. (ok key, w);
  is_not_found_error = λ e. false;
  Auth = Unit {0};
  Function = Unit {0};
  SorobanData = Unit {0};
  no_soroban_data = tt;
  Rest = Unit {0};
  Built = Bytes;
  new_transaction = λ r. ok r.function_name;
  built_base64 = λ b. ok b;
  unmarshal_envelope = λ b. ok demo_envelope;
  marshal_envelope = λ e. ok (text "prepared");
  unmarshal_soroban_data = λ b. ok tt;
  unmarshal_auth = λ b. ok tt;
  base64_decode = λ b. ok b;
  unmarshal_val = λ b. ok (demo_val b);
  marshal_val = λ v. ok [];
  random_salt = λ w. (ok (replicate 32 7), w);
  parse_time = λ b. ok 5;
  quote = λ b. b;
}

abbrev pub demo_key : Bytes
demo_key = b'G' ∷ replicate 55 b'A'

abbrev pub demo_contract : Bytes
demo_contract = b'C' ∷ replicate 55 b'A'

abbrev pub demo_client : Client
demo_client = record { rpc_url = text "rpc" }

abbrev pub demo_horizon : HorizonClient
demo_horizon = record { horizon_url = text "horizon"; network_passphrase = text "test" }

abbrev pub demo_invoker : ContractInvoker
demo_invoker = record { client = demo_client; network_passphrase = text "test"; base_fee = pos 100 }

abbrev pub demo_builder : Builder
demo_builder = record {
  client = demo_horizon;
  network_passphrase = text "test";
  base_fee = pos 100;
  soroban_client = some demo_client;
  contract_invoker = some demo_invoker;
}

abbrev pub demo_service : MarketService
demo_service = record {
  stellar_client = demo_horizon;
  soroban_client = demo_client;
  tx_builder = demo_builder;
  oracle_public_key = demo_key;
}

-- No request has been made, and the server will give these replies.
abbrev pub demo_state : List ℕ → State demo
demo_state replies = record { request_id = 0; world = replies }

-- A cache that holds nothing.
abbrev pub demo_cache : {V : Type 0} → Cache (List ℕ) V
demo_cache = record { look_up = λ k w. ((none, none), w); store = λ k v w. w }

abbrev pub demo_factory : FactoryService demo
demo_factory = record {
  soroban_client = demo_client;
  tx_builder = demo_builder;
  factory_contract = demo_contract;
  oracle_public_key = demo_key;
  market_list_cache = demo_cache;
}
