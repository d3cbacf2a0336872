-- ===== src/Platform.antt =====
-- What the program calls and does not implement: the Stellar SDK (strkey, txnbuild, xdr, Horizon),
-- HTTP and JSON, float64 arithmetic, the clock and the formatting verbs of package fmt. A theorem
-- that relies on their behaviour names it as a hypothesis.
use total.Prelude.{ℕ, Bool, Option, List}
use total.Prelude.Int.{ℤ}
use total.Bytes.{Bytes}
use total.Errors.{Error, Result}
use total.Soroban.Types.{
  RpcRequest, RpcResponse, SimulateTransactionResult, SendTransactionResult, GetTransactionResult,
  GetLedgerEntriesResult, GetHealthResult, GetNetworkResult, GetLatestLedgerResult, GetEventsResult,
}
use total.Soroban.ScVal.{VersionByte, ScVal}

-- float64 with the operations that the code applies to it.
pub record Floats : Type 1 where
  pub Float : Type 0
  pub lt : Float → Float → Bool
  pub le : Float → Float → Bool
  pub eq : Float → Float → Bool
  pub add : Float → Float → Float
  pub sub : Float → Float → Float
  pub mul : Float → Float → Float
  pub div : Float → Float → Float
  -- `float64(n)` of an int64
  pub of_int : ℤ → Float
  -- the constant n · 10⁻ᵏ
  pub constant : ℕ → ℕ → Float
  -- `int64(f)`
  pub truncate : Float → ℤ
  pub is_nan : Float → Bool
  pub is_inf : Float → Bool
  -- math.Exp, math.Log, math.Max
  pub exp : Float → Float
  pub log : Float → Float
  pub larger : Float → Float → Float
  -- strconv.ParseFloat(s, 64)
  pub parse : Bytes → Result Float
  -- `%g`, and `%.kf`
  pub show_g : Float → Bytes
  pub show_fixed : ℕ → Float → Bytes

-- The outcome of an HTTP exchange, by the step at which it failed.
pub data Exchange : Type 0 where
  not_created : Error → Exchange
  not_sent : Error → Exchange
  not_read : Error → Exchange
  received : Bytes → Exchange

-- An operation of a transaction envelope, and the parts of an envelope that the program reads.
pub data Operation (Function Auth Rest : Type 0) : Type 0 where
  invoke_host_function : Function → List Auth → Operation Function Auth Rest
  other_operation : Rest → Operation Function Auth Rest

pub record Transaction (SorobanData Operations Rest : Type 0) : Type 0 where
  pub fee : ℕ
  pub soroban_data : Option SorobanData
  pub operations : Operations
  pub rest : Rest

pub data Envelope (Tx Rest : Type 0) : Type 0 where
  envelope_tx : Tx → Envelope Tx Rest
  other_envelope : Rest → Envelope Tx Rest

-- The arguments of `txnbuild.NewTransaction`: one InvokeHostFunction operation, an incremented
-- sequence number and an infinite timeout are what the program always asks for.
pub record TransactionParams (Account Auth : Type 0) : Type 0 where
  pub source_account : Account
  pub contract_id : Bytes
  pub function_name : Bytes
  pub args : List ScVal
  pub auth : List Auth
  pub base_fee : ℤ

pub record Platform : Type 1 where
  pub floats : Floats
  -- All that a call can see and change outside the program.
  pub World : Type 0
  pub context_error : World → Option Error
  -- HTTP POST of a JSON body
  pub post : Bytes → Bytes → World → Exchange × World
  -- encoding/json
  pub Raw : Type 0
  pub marshal_request : RpcRequest → Result Bytes
  pub unmarshal_response : Bytes → Result (RpcResponse Raw)
  pub unmarshal_health : Raw → Result GetHealthResult
  pub unmarshal_network : Raw → Result GetNetworkResult
  pub unmarshal_latest_ledger : Raw → Result GetLatestLedgerResult
  pub unmarshal_simulate : Raw → Result SimulateTransactionResult
  pub unmarshal_send : Raw → Result SendTransactionResult
  pub unmarshal_transaction : Raw → Result GetTransactionResult
  pub unmarshal_events : Raw → Result GetEventsResult
  pub unmarshal_ledger_entries : Raw → Result GetLedgerEntriesResult
  -- strkey
  pub strkey_decode : VersionByte → Bytes → Result Bytes
  pub strkey_encode : VersionByte → Bytes → Result Bytes
  -- keypair.ParseAddress, as its error if it has one
  pub parse_address : Bytes → Option Error
  -- Horizon
  pub Account : Type 0
  pub account_detail : Bytes → World → Result Account × World
  pub is_not_found_error : Error → Bool
  -- txnbuild and xdr
  pub Auth : Type 0
  pub Function : Type 0
  pub SorobanData : Type 0
  pub no_soroban_data : SorobanData
  pub Rest : Type 0
  pub Built : Type 0
  pub new_transaction : TransactionParams Account Auth → Result Built
  pub built_base64 : Built → Result Bytes
  pub unmarshal_envelope :
      Bytes
      → Result (Envelope (Transaction SorobanData (List (Operation Function Auth Rest)) Rest) Rest)
  pub marshal_envelope :
      Envelope (Transaction SorobanData (List (Operation Function Auth Rest)) Rest) Rest
      → Result Bytes
  pub unmarshal_soroban_data : Bytes → Result SorobanData
  pub unmarshal_auth : Bytes → Result Auth
  -- base64 and `ScVal.UnmarshalBinary`
  pub base64_decode : Bytes → Result Bytes
  pub unmarshal_val : Bytes → Result ScVal
  pub marshal_val : ScVal → Result Bytes
  -- `rand.Read` of 32 bytes
  pub random_salt : World → Result Bytes × World
  -- `time.Parse(time.RFC3339, s)`, in seconds
  pub parse_time : Bytes → Result ℕ
  -- `%q`
  pub quote : Bytes → Bytes
