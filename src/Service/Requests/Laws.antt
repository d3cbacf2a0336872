-- ===== src/Service/Requests/Laws.antt =====
-- What the validation of a request accepts.
use total.Prelude.{true, false, none, ◌≡◌, ◌↔◌, arith}
use total.Model.{is_valid, validate_stellar_public_key, zero_float}
use total.Soroban.Address.{validate_contract_id}
use total.Service.Requests.{TradeRequest, max_slippage, validate_trade}
use total.Platform.{Platform}

module _ (P : Platform) where
  open P use {floats}

  -- The conditions on a trade's request, one by one.
  pub record IsTradable (r : TradeRequest P) : Type 0 where
    pub key : validate_stellar_public_key r.user_public_key ≡ none
    pub contract : validate_contract_id P r.contract_id ≡ none
    pub outcome : is_valid r.outcome ≡ true
    pub amount : floats.le r.share_amount (zero_float floats) ≡ false
    pub slippage_low : floats.le r.slippage (zero_float floats) ≡ false
    pub slippage_high : floats.lt (max_slippage floats) r.slippage ≡ false

  -- A trade's request is accepted exactly if its key and its contract are, its outcome is YES or NO,
  -- and neither is its share amount at most 0 nor its slippage at most 0 or above 10%.
  pub validate_trade_exact : (r : TradeRequest P) → (validate_trade P r ≡ none) ↔ IsTradable r
  unfolding validate_trade
  validate_trade_exact r = (λ e. ground arith, λ h. ground arith)
