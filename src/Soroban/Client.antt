-- ===== src/Soroban/Client.antt =====
-- internal/soroban/client.go: the JSON-RPC client. A call takes the next request number, posts the
-- request, and reads the response; each method decodes its own result.
pub mod Wait
pub mod Laws
pub mod Liveness
use total.Prelude.{ℕ, ◌+◌, Bool, not, Option, none, some, List, [], ◌++◌, if◌then◌else◌}
use total.Bytes.{Bytes, text, bytes_eq, is_empty}
use total.Errors.{
  Error, sentinel, wrap, Result, ok, err, both, Action, ◌>>=◌, during, pure, fail, lift, rpc_error,
  simulation_failed, transaction_failed,
}
use total.Soroban.Types.{
  Params, no_params, simulate_params, send_params, get_transaction_params,
  get_ledger_entries_params, get_events_params, RpcRequest, RpcResponse, rpc_error_text,
  SimulateTransactionResult, SendTransactionResult, GetTransactionResult, GetLedgerEntriesResult,
  GetHealthResult, GetNetworkResult, GetLatestLedgerResult, GetEventsResult, GetEventsParams,
  tx_status_error,
}
use total.Platform.{Platform, Exchange, not_created, not_sent, not_read, received}

-- The client's counter beside the world.
pub record State (P : Platform) : Type 0 where
  pub request_id : ℕ
  pub world : P.World

-- `Client`; its HTTP client is the platform's `post`.
pub record Client : Type 0 where
  pub rpc_url : Bytes

unfoldable pub new_client : Bytes → Client
new_client rpc_url = record { rpc_url = rpc_url }

module _ (P : Platform) where
  -- The counter of a new client is 1, so its first request has the number 2.
  unfoldable pub new_client_state : P.World → State P
  new_client_state w = record { request_id = 1; world = w }

  -- `c.requestID.Add(1)`
  unfoldable pub next_id : Action (State P) ℕ
  next_id s = (ok (s.request_id + 1), record s { request_id = s.request_id + 1 })

  unfoldable pub read_exchange : Exchange → Result Bytes
  read_exchange (not_created e) = err (wrap (text "failed to create request: ") e [])
  read_exchange (not_sent e) = err (wrap (text "request failed: ") e [])
  read_exchange (not_read e) = err (wrap (text "failed to read response: ") e [])
  read_exchange (received body) = ok body

  unfoldable pub post_body : Client → Bytes → Action (State P) Bytes
  unfolding read_exchange
  post_body c body s =
      let (x, w) = P.post c.rpc_url body s.world in (read_exchange x, record s { world = w })

  unfoldable pub check_response : Bytes → RpcResponse P.Raw → Result (RpcResponse P.Raw)
  check_response method resp = elim resp.error [
    | none ↦ ok resp
    | some e ↦ err (
        wrap [] (sentinel rpc_error)
          (text ": method " ++ (method ++ (text ": " ++ rpc_error_text e))))
  ]

  unfoldable pub call : Client → Bytes → Params → Action (State P) (RpcResponse P.Raw)
  unfolding next_id post_body check_response
  call c method params = do
    id ← next_id
    let request : RpcRequest = record {
      jsonrpc = text "2.0";
      id = id;
      method = method;
      params = params;
    }
    body ← during "failed to marshal request: " (lift (P.marshal_request request))
    answer ← post_body c body
    resp ← during "failed to unmarshal response: " (lift (P.unmarshal_response answer))
    lift (check_response method resp)

  -- A call whose result is decoded and returned.
  unfoldable pub call_for :
      {A : Type 0} → (P.Raw → Result A) → Client → Bytes → Params → Action (State P) A
  call_for unmarshal c method params = do
    resp ← call c method params
    during "failed to unmarshal result: " (lift (unmarshal resp.result))

  unfoldable pub get_health : Client → Action (State P) GetHealthResult
  unfolding call_for
  get_health c = call_for P.unmarshal_health c (text "getHealth") no_params

  unfoldable pub get_network : Client → Action (State P) GetNetworkResult
  unfolding call_for
  get_network c = call_for P.unmarshal_network c (text "getNetwork") no_params

  unfoldable pub get_latest_ledger : Client → Action (State P) GetLatestLedgerResult
  unfolding call_for
  get_latest_ledger c = call_for P.unmarshal_latest_ledger c (text "getLatestLedger") no_params

  unfoldable pub check_simulation : SimulateTransactionResult → Result SimulateTransactionResult
  check_simulation r =
      if is_empty r.error
      then ok r
      else both r (wrap [] (sentinel simulation_failed) (text ": " ++ r.error))

  unfoldable pub simulate_transaction : Client → Bytes → Action (State P) SimulateTransactionResult
  unfolding call_for check_simulation
  simulate_transaction c tx_xdr = do
    r ← call_for P.unmarshal_simulate c (text "simulateTransaction") (simulate_params tx_xdr none)
    lift (check_simulation r)

  unfoldable pub check_sent : SendTransactionResult → Result SendTransactionResult
  check_sent r =
      if bytes_eq r.status tx_status_error
      then both r (wrap [] (sentinel transaction_failed) (text ": " ++ r.error_result))
      else ok r

  unfoldable pub send_transaction : Client → Bytes → Action (State P) SendTransactionResult
  unfolding call_for check_sent
  send_transaction c tx_xdr = do
    r ← call_for P.unmarshal_send c (text "sendTransaction") (send_params tx_xdr)
    lift (check_sent r)

  unfoldable pub get_transaction : Client → Bytes → Action (State P) GetTransactionResult
  unfolding call_for
  get_transaction c hash =
      call_for P.unmarshal_transaction c (text "getTransaction") (get_transaction_params hash)

  unfoldable pub get_events : Client → GetEventsParams → Action (State P) GetEventsResult
  unfolding call_for
  get_events c params = call_for P.unmarshal_events c (text "getEvents") (get_events_params params)

  unfoldable pub get_ledger_entries : Client → List Bytes → Action (State P) GetLedgerEntriesResult
  unfolding call_for
  get_ledger_entries c keys =
      call_for P.unmarshal_ledger_entries c (text "getLedgerEntries")
        (get_ledger_entries_params keys)
