-- ===== src/Soroban/Invoker.antt =====
-- internal/soroban/contract.go: `ContractInvoker`, which builds invocations and attaches to them
-- what a simulation says.
pub mod Fee
use total.Prelude.{ℕ, Bool, true, false, Option, none, some, List, [], ◌∷◌, ◌++◌, if◌then◌else◌}
use total.Prelude.Int.{ℤ}
use total.Bytes.{Bytes, text, is_empty, parse_int, parse_reason}
use total.Errors.{
  Result, ok, err, both, Action, ◌>>=◌, during, pure, fail, lift, failure, wrap, plain, wrapped,
}
use total.Soroban.Types.{SimulateTransactionResult, SimulateResult}
use total.Soroban.ScVal.{contract, ScVal}
use total.Soroban.Address.{copy32, then_ok, relabel_result}
use total.Soroban.Client.{State, Client, simulate_transaction}
use total.Soroban.Invoker.Fee.{update_fee}
use total.Platform.{
  Platform, TransactionParams, Envelope, envelope_tx, other_envelope, Transaction, Operation,
  invoke_host_function, other_operation,
}

-- The network passphrase is kept in the source, and not read.
pub record ContractInvoker : Type 0 where
  pub client : Client
  pub network_passphrase : Bytes
  pub base_fee : ℤ

module _ (P : Platform) where
  pub record InvokeParams : Type 0 where
    pub source_account : P.Account
    pub contract_id : Bytes
    pub function_name : Bytes
    pub args : List ScVal
    pub auth : List P.Auth

  unfoldable pub build_invoke_tx : ContractInvoker → InvokeParams → Action (State P) Bytes
  build_invoke_tx ci params = do
    id ← during "invalid contract ID: " (lift (P.strkey_decode contract params.contract_id))
    let request : TransactionParams P.Account P.Auth = record {
      source_account = params.source_account;
      contract_id = copy32 id;
      function_name = params.function_name;
      args = params.args;
      auth = params.auth;
      base_fee = ci.base_fee;
    }
    tx ← during "failed to build transaction: " (lift (P.new_transaction request))
    during "failed to encode transaction: " (lift (P.built_base64 tx))

  abbrev pub Op : Type 0
  Op = Operation P.Function P.Auth P.Rest

  abbrev pub Tx : Type 0
  Tx = Transaction P.SorobanData (List Op) P.Rest

  unfoldable pub parse_soroban_data : Bytes → Result P.SorobanData
  parse_soroban_data xdr =
      if is_empty xdr
      then ok P.no_soroban_data
      else relabel_result "failed to parse soroban data: " (P.unmarshal_soroban_data xdr)

  unfoldable pub envelope_transaction : Envelope Tx P.Rest → Result Tx
  envelope_transaction (envelope_tx tx) = ok tx
  envelope_transaction (other_envelope rest) = err (failure "unsupported envelope type")

  unfoldable pub parse_auths : List Bytes → Result (List P.Auth)
  parse_auths [] = ok []
  parse_auths (x ∷ xs) = elim (relabel_result "failed to parse auth entry: " (P.unmarshal_auth x)) [
    | ok a ↦ then_ok (parse_auths xs) (λ as'. a ∷ as')
    | err e ↦ err e
    | both a e ↦ err e
  ]

  -- The auth entries of the first simulated operation, if it has any, replace those of the first
  -- operation.
  unfoldable pub attach_auth : List SimulateResult → List Op → Result (List Op)
  unfolding parse_auths
  attach_auth [] ops = ok ops
  attach_auth (r ∷ rs) ops = elim r.auth [
    | [] ↦ ok ops
    | a ∷ as' ↦ elim ops [
      | [] ↦ err (failure "transaction has no operations")
      | o ∷ os ↦ elim o [
        | invoke_host_function f auth ↦
            then_ok (parse_auths (a ∷ as')) (λ auths. invoke_host_function f auths ∷ os)
        | other_operation rest ↦ err (failure "operation is not an InvokeHostFunction")
      ]
    ]
  ]

  -- The resource fee's text, and the new fee.
  unfoldable pub add_resource_fee : ℕ → Bytes → Result ℕ
  add_resource_fee fee resource = elim (parse_int resource) [
    | none ↦ err (
        plain (
          text "failed to parse resource fee: strconv.ParseInt: parsing "
          ++ (P.quote resource ++ (text ": " ++ parse_reason resource))))
    | some r ↦ update_fee fee r
  ]

  -- All that follows the simulation, on its result.
  unfoldable pub prepare : Bytes → SimulateTransactionResult → Action (State P) Bytes
  unfolding parse_soroban_data envelope_transaction add_resource_fee attach_auth
  prepare tx_xdr sim = do
    envelope ← during "failed to parse transaction: " (lift (P.unmarshal_envelope tx_xdr))
    soroban_data ← lift (parse_soroban_data sim.transaction_data)
    tx ← lift (envelope_transaction envelope)
    fee ← lift (add_resource_fee tx.fee sim.min_resource_fee)
    operations ← lift (attach_auth sim.results tx.operations)
    let updated : Tx = record {
      fee = fee;
      soroban_data = some soroban_data;
      operations = operations;
      rest = tx.rest;
    }
    during "failed to encode updated transaction: "
        (lift (P.marshal_envelope (envelope_tx updated)))

  unfoldable pub simulate_and_prepare : ContractInvoker → Bytes → Action (State P) Bytes
  unfolding prepare
  simulate_and_prepare ci tx_xdr = do
    sim ← during "simulation failed: " (simulate_transaction P ci.client tx_xdr)
    prepare tx_xdr sim
