-- ===== src/Soroban/Types.antt =====
-- internal/soroban/types.go: the JSON-RPC requests and results. A field that may be absent
-- (`omitempty` on a pointer) is an option; 32-bit and 64-bit numbers are naturals.
use total.Prelude.{ℕ, Bool, Option, List, [], ◌++◌, ◌==◌, if◌then◌else◌}
use total.Bytes.{Bytes, text, bytes_eq, is_empty, show_nat}
use total.Errors.{sentinel, wrap, soroban_invalid_outcome, Result, ok, err}
use total.Prelude.Int.{ℤ}

pub record RpcError : Type 0 where
  pub code : ℤ
  pub message : Bytes
  pub detail : Bytes

-- `(e *RPCError) Error()`
unfoldable pub rpc_error_text : RpcError → Bytes
rpc_error_text e = if is_empty e.detail then e.message else e.message ++ (text ": " ++ e.detail)

pub record ResourceConfig : Type 0 where
  pub instruction_leeway : ℕ

pub record SimulateResult : Type 0 where
  pub auth : List Bytes
  pub xdr : Bytes

pub record SimulateCost : Type 0 where
  pub cpu_insns : Bytes
  pub mem_bytes : Bytes

pub record RestorePreamble : Type 0 where
  pub transaction_data : Bytes
  pub min_resource_fee : Bytes

pub record LedgerEntryChange : Type 0 where
  pub kind : Bytes
  pub key : Bytes
  pub before : Bytes
  pub after : Bytes

pub record SimulateTransactionResult : Type 0 where
  pub transaction_data : Bytes
  pub min_resource_fee : Bytes
  pub events : List Bytes
  pub results : List SimulateResult
  pub cost : Option SimulateCost
  pub restore_preamble : Option RestorePreamble
  pub state_changes : List LedgerEntryChange
  pub latest_ledger : ℕ
  pub error : Bytes

pub record SendTransactionResult : Type 0 where
  pub status : Bytes
  pub hash : Bytes
  pub latest_ledger : ℕ
  pub error_result : Bytes

unfoldable pub tx_status_error : Bytes
tx_status_error = text "ERROR"

pub record GetTransactionResult : Type 0 where
  pub status : Bytes
  pub latest_ledger : ℕ
  pub latest_ledger_close_time : Bytes
  pub oldest_ledger : ℕ
  pub oldest_ledger_close_time : Bytes
  pub ledger : ℕ
  pub created_at : Bytes
  pub application_order : ℤ
  pub fee_bump : Bool
  pub envelope_xdr : Bytes
  pub result_xdr : Bytes
  pub result_meta_xdr : Bytes
  pub return_value : Bytes

unfoldable pub tx_result_not_found : Bytes
tx_result_not_found = text "NOT_FOUND"

unfoldable pub tx_result_success : Bytes
tx_result_success = text "SUCCESS"

unfoldable pub tx_result_failed : Bytes
tx_result_failed = text "FAILED"

pub record LedgerEntry : Type 0 where
  pub key : Bytes
  pub xdr : Bytes
  pub last_modified_ledger_seq : ℕ
  pub live_until_ledger_seq : ℕ

pub record GetLedgerEntriesResult : Type 0 where
  pub entries : List LedgerEntry
  pub latest_ledger : ℕ

pub record GetHealthResult : Type 0 where
  pub status : Bytes
  pub latest_ledger : ℕ
  pub oldest_ledger : ℕ
  pub ledger_retention_window : ℕ

pub record GetNetworkResult : Type 0 where
  pub friendbot_url : Bytes
  pub passphrase : Bytes
  pub protocol_version : ℤ

pub record GetLatestLedgerResult : Type 0 where
  pub id : Bytes
  pub protocol_version : ℤ
  pub sequence : ℕ

pub record EventFilter : Type 0 where
  pub kind : Bytes
  pub contract_ids : List Bytes
  pub topics : List (List Bytes)

pub record EventPagination : Type 0 where
  pub limit : ℕ
  pub cursor : Bytes

pub record GetEventsParams : Type 0 where
  pub start_ledger : ℕ
  pub filters : List EventFilter
  pub pagination : Option EventPagination

pub record ContractEvent : Type 0 where
  pub kind : Bytes
  pub ledger : ℕ
  pub ledger_closed_at : Bytes
  pub contract_id : Bytes
  pub id : Bytes
  pub paging_token : Bytes
  pub in_successful_contract_call : Bool
  pub topic : List Bytes
  pub value : Bytes

pub record GetEventsResult : Type 0 where
  pub events : List ContractEvent
  pub latest_ledger : ℕ

-- The values that the client puts into `Params any`.
pub data Params : Type 0 where
  no_params : Params
  simulate_params : Bytes → Option ResourceConfig → Params
  send_params : Bytes → Params
  get_transaction_params : Bytes → Params
  get_ledger_entries_params : List Bytes → Params
  get_events_params : GetEventsParams → Params

pub record RpcRequest : Type 0 where
  pub jsonrpc : Bytes
  pub id : ℕ
  pub method : Bytes
  pub params : Params

-- `Raw` is json.RawMessage.
pub record RpcResponse (Raw : Type 0) : Type 0 where
  pub jsonrpc : Bytes
  pub id : ℤ
  pub result : Raw
  pub error : Option RpcError

abbrev pub outcome_yes : ℕ
outcome_yes = 0

abbrev pub outcome_no : ℕ
outcome_no = 1

abbrev pub scale_factor : ℕ
scale_factor = 10_000_000

-- `quote` is the `%q` of package fmt.
unfoldable pub outcome_to_u32 : (quote : Bytes → Bytes) → Bytes → Result ℕ
outcome_to_u32 quote outcome =
    if bytes_eq outcome (text "YES")
    then ok outcome_yes
    else if bytes_eq outcome (text "NO")
    then ok outcome_no
    else err (wrap [] (sentinel soroban_invalid_outcome) (text ": got " ++ quote outcome))

unfoldable pub u32_to_outcome : ℕ → Result Bytes
u32_to_outcome outcome =
    if outcome == outcome_yes
    then ok (text "YES")
    else if outcome == outcome_no
    then ok (text "NO")
    else err (wrap [] (sentinel soroban_invalid_outcome) (text ": got " ++ show_nat outcome))
