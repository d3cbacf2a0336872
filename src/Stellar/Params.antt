-- ===== src/Stellar/Params.antt =====
-- internal/stellar/builder.go: the parameters of the transactions. Outcomes are uint32, amounts are
-- int64 scaled by 10^7, a salt has 32 bytes.
use total.Prelude.{ℕ}
use total.Prelude.Int.{ℤ}
use total.Bytes.{Bytes}

pub record BuyTxParams : Type 0 where
  pub user_public_key : Bytes
  pub contract_id : Bytes
  pub outcome : ℕ
  pub amount : ℤ
  pub max_cost : ℤ

pub record SellTxParams : Type 0 where
  pub user_public_key : Bytes
  pub contract_id : Bytes
  pub outcome : ℕ
  pub amount : ℤ
  pub min_return : ℤ

pub record ResolveTxParams : Type 0 where
  pub oracle_public_key : Bytes
  pub contract_id : Bytes
  pub winning_outcome : ℕ

pub record ClaimTxParams : Type 0 where
  pub user_public_key : Bytes
  pub contract_id : Bytes

pub record WithdrawTxParams : Type 0 where
  pub oracle_public_key : Bytes
  pub contract_id : Bytes

pub record GetQuoteTxParams : Type 0 where
  pub user_public_key : Bytes
  pub contract_id : Bytes
  pub outcome : ℕ
  pub amount : ℤ

pub record GetBalanceTxParams : Type 0 where
  pub user_public_key : Bytes
  pub contract_id : Bytes
  pub account : Bytes
  pub outcome : ℕ

pub record ListMarketsTxParams : Type 0 where
  pub user_public_key : Bytes
  pub factory_contract : Bytes

pub record GetStateTxParams : Type 0 where
  pub user_public_key : Bytes
  pub contract_id : Bytes

pub record GetMetadataHashTxParams : Type 0 where
  pub user_public_key : Bytes
  pub contract_id : Bytes

pub record GetWinningOutcomeTxParams : Type 0 where
  pub user_public_key : Bytes
  pub contract_id : Bytes

pub record DeployMarketTxParams : Type 0 where
  pub oracle_public_key : Bytes
  pub factory_contract : Bytes
  pub liquidity_param : ℤ
  pub metadata_hash : Bytes
  pub initial_funding : ℤ
  pub salt : Bytes
