-- ===== src/Soroban/DataKey.antt =====
-- internal/soroban/contract.go: `BuildContractDataKey`.
use total.Bytes.{Bytes}
use total.Errors.{Result, ok, err, both, wrapped}
use total.Soroban.ScVal.{contract, ScVal, ScAddress, contract_address}
use total.Soroban.Address.{copy32, relabel_result}
use total.Platform.{Platform}

-- A ledger key of contract data. `Durability` is an enumeration of package xdr.
pub record LedgerKey (Durability : Type 0) : Type 0 where
  pub contract : ScAddress
  pub key : ScVal
  pub durability : Durability

module _ (P : Platform) {Durability : Type 0}
    -- `xdr.MarshalBase64`
    (marshal_key : LedgerKey Durability → Result Bytes) where
  unfoldable pub build_contract_data_key : Bytes → ScVal → Durability → Result Bytes
  unfolding copy32
  build_contract_data_key address key durability = elim (P.strkey_decode contract address) [
    | err e ↦ err (wrapped "invalid contract ID: " e)
    | both id e ↦ err (wrapped "invalid contract ID: " e)
    | ok id ↦ relabel_result "failed to encode ledger key: " (
        marshal_key
          (record { contract = contract_address (copy32 id); key = key; durability = durability }))
  ]
