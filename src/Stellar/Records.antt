-- ===== src/Stellar/Records.antt =====
-- internal/stellar/client.go: balances, data, transactions and operations of an account, and the
-- submission of a transaction.
use total.Prelude.{ℕ, ◌-◌, ◌%◌, ◌^◌, Bool, true, none, some, List}
use total.Prelude.Int.{ℤ, pos, negsuc}
use total.Bytes.{Bytes}
use total.Errors.{Result, err, Action, ◌>>=◌, pure, wrapped}
use total.Soroban.Address.{relabel_result}
use total.Soroban.Client.{State}
use total.Stellar.Horizon.{HorizonClient, get_account}
use total.Platform.{Platform}

-- A request of a page of an account's records.
pub record PageRequest : Type 0 where
  pub for_account : Bytes
  pub limit : ℕ
  pub newest_first : Bool

-- What the Stellar SDK returns beside accounts: the parts of an account, and Horizon's calls.
pub record Horizon (P : Platform) : Type 1 where
  pub Balance : Type 0
  pub AccountData : Type 0
  pub TransactionRecord : Type 0
  pub OperationRecord : Type 0
  pub balances : P.Account → List Balance
  pub account_data : P.Account → AccountData
  pub transactions : Bytes → PageRequest → P.World → Result (List TransactionRecord) × P.World
  pub operations : Bytes → PageRequest → P.World → Result (List OperationRecord) × P.World
  pub submit : Bytes → P.Built → P.World → Result TransactionRecord × P.World

-- `uint(n)` of an int of 64 bits.
unfoldable pub to_uint : ℤ → ℕ
to_uint (pos n) = n % 2 ^ 64
to_uint (negsuc n) = 2 ^ 64 - 1 - n % 2 ^ 64

abbrev pub page_of : Bytes → ℤ → PageRequest
page_of public_key limit = record {
  for_account = public_key;
  limit = to_uint limit;
  newest_first = true;
}

module _ (P : Platform) (R : Horizon P) where
  unfoldable pub get_account_balances : HorizonClient → Bytes → Action (State P) (List R.Balance)
  get_account_balances c public_key = do
    account ← get_account P c public_key
    pure (R.balances account)

  unfoldable pub get_account_data : HorizonClient → Bytes → Action (State P) R.AccountData
  get_account_data c public_key = do
    account ← get_account P c public_key
    pure (R.account_data account)

  unfoldable pub get_transactions :
      HorizonClient → Bytes → ℤ → Action (State P) (List R.TransactionRecord)
  get_transactions c public_key limit s = elim (P.context_error s.world) [
    | some e ↦ (err (wrapped "context error: " e), s)
    | none ↦
        let (r, w) = R.transactions c.horizon_url (page_of public_key limit) s.world in
        (relabel_result "failed to get transactions: " r, record s { world = w })
  ]

  unfoldable pub get_operations :
      HorizonClient → Bytes → ℤ → Action (State P) (List R.OperationRecord)
  get_operations c public_key limit s = elim (P.context_error s.world) [
    | some e ↦ (err (wrapped "context error: " e), s)
    | none ↦
        let (r, w) = R.operations c.horizon_url (page_of public_key limit) s.world in
        (relabel_result "failed to get operations: " r, record s { world = w })
  ]

  unfoldable pub submit_transaction : HorizonClient → P.Built → Action (State P) R.TransactionRecord
  submit_transaction c tx s =
      let (r, w) = R.submit c.horizon_url tx s.world in
      (relabel_result "failed to submit transaction: " r, record s { world = w })
