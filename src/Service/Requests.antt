-- ===== src/Service/Requests.antt =====
-- internal/service/market.go: the requests and their validation. A `BuyRequest` and a
-- `SellRequest` embed a `TradeRequest` and nothing else.
pub mod Laws
use total.Prelude.{not, ◌||◌, Option, none, some, if◌then◌else◌}
use total.Bytes.{Bytes}
use total.Errors.{Error, sentinel, model_invalid_outcome, invalid_share_amount, invalid_slippage}
use total.Model.{Outcome, is_valid, validate_stellar_public_key, zero_float}
use total.Soroban.Address.{validate_contract_id}
use total.Platform.{Platform, Floats}

-- `if err := v; err != nil { return err }`
abbrev pub or_next : Option Error → Option Error → Option Error
or_next (some e) next = some e
or_next none next = next

pub record ResolveRequest : Type 0 where
  pub oracle_public_key : Bytes
  pub contract_id : Bytes
  pub winning_outcome : Outcome

pub record ClaimRequest : Type 0 where
  pub user_public_key : Bytes
  pub contract_id : Bytes

pub record WithdrawRequest : Type 0 where
  pub oracle_public_key : Bytes
  pub contract_id : Bytes

-- `model.MaxSlippage`
abbrev pub max_slippage : (F : Floats) → F.Float
max_slippage F = F.constant 10 2

module _ (P : Platform) where
  open P use {floats}

  pub record TradeRequest : Type 0 where
    pub user_public_key : Bytes
    pub contract_id : Bytes
    pub outcome : Outcome
    pub share_amount : floats.Float
    pub slippage : floats.Float

  -- The checks of a key and a contract that all requests begin with.
  unfoldable pub validate_parties : Bytes → Bytes → Option Error
  validate_parties key contract =
      or_next (validate_stellar_public_key key) (validate_contract_id P contract)

  unfoldable pub validate_trade : TradeRequest → Option Error
  unfolding validate_parties
  validate_trade r = or_next (validate_parties r.user_public_key r.contract_id) (
      if not (is_valid r.outcome)
      then some (sentinel model_invalid_outcome)
      else if floats.le r.share_amount (zero_float floats)
      then some (sentinel invalid_share_amount)
      else if floats.le r.slippage (zero_float floats) || floats.lt (max_slippage floats) r.slippage
      then some (sentinel invalid_slippage)
      else none)

  unfoldable pub validate_resolve : ResolveRequest → Option Error
  unfolding validate_parties
  validate_resolve r =
      or_next (validate_parties r.oracle_public_key r.contract_id)
        (if not (is_valid r.winning_outcome) then some (sentinel model_invalid_outcome) else none)

  unfoldable pub validate_claim : ClaimRequest → Option Error
  unfolding validate_parties
  validate_claim r = validate_parties r.user_public_key r.contract_id

  unfoldable pub validate_withdraw : WithdrawRequest → Option Error
  unfolding validate_parties
  validate_withdraw r = validate_parties r.oracle_public_key r.contract_id
