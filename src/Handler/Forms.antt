-- ===== src/Handler/Forms.antt =====
-- internal/handler/market.go: the parts of forms. A form is refused with a text, and status 400.
use total.Prelude.{String, ◌||◌, none, some, ◌⊎◌, inl, inr, if◌then◌else◌}
use total.Bytes.{Bytes, text, is_empty, trim_space}
use total.Errors.{Result, ok, err, both, value?}
use total.Model.{Outcome, parse_outcome, zero_float}
use total.Service.Requests.{TradeRequest, max_slippage}
use total.Handler.Web.{Request}
use total.Platform.{Platform}

abbrev pub Form : Type 0 → Type 0
Form A = Bytes ⊎ A

abbrev pub then_form : {A B : Type 0} → Form A → (A → Form B) → Form B
then_form (inl m) f = inl m
then_form (inr a) f = f a

-- `r.ParseForm()`
abbrev pub require_form : Request → Form (Unit {0})
require_form r = elim r.form_error [ none ↦ inr tt | some e ↦ inl (text "Invalid form data") ]

abbrev pub outcome_of : Result Outcome → Form Outcome
outcome_of (ok o) = inr o
outcome_of (err e) = inl (text "Invalid outcome: must be YES or NO")
outcome_of (both o e) = inl (text "Invalid outcome: must be YES or NO")

unfoldable pub require_outcome : Bytes → Form Outcome
require_outcome s = outcome_of (parse_outcome s)

module _ (P : Platform) where
  open P use {floats}

  unfoldable pub require_address : Bytes → Form Bytes
  require_address key = elim (P.parse_address key) [
    | none ↦ inr key
    | some e ↦ inl (text "Invalid Stellar public key")
  ]

  -- A number above zero, refused with a text.
  unfoldable pub require_positive : String → Bytes → Form floats.Float
  require_positive message s = elim (value? (floats.parse s)) [
    | none ↦ inl (text message)
    | some f ↦ if floats.le f (zero_float floats) then inl (text message) else inr f
  ]

  -- `model.DefaultSlippage`
  abbrev pub default_slippage : floats.Float
  default_slippage = floats.constant 1 2

  unfoldable pub require_slippage : Bytes → Form floats.Float
  require_slippage s = if is_empty s then inr default_slippage else elim (value? (floats.parse s)) [
    | none ↦ inl (text "Invalid slippage: must be a number")
    | some f ↦
        if floats.le f (zero_float floats) || floats.lt (max_slippage floats) f
        then inl (text "Invalid slippage: must be between 0 and 10% (e.g., 0.01 for 1%)")
        else inr f
  ]

  -- The form of `handleBuildBuyTx` and of `handleBuildSellTx`.
  unfoldable pub trade_form : Request → Form (TradeRequest P)
  unfolding require_address require_outcome require_positive require_slippage
  trade_form r = then_form (require_form r) λ _.
      then_form (require_address (trim_space (r.form "user_public_key"))) λ key.
        then_form (require_outcome (r.form "outcome")) λ outcome.
          then_form (require_positive "Invalid amount" (r.form "amount")) λ amount.
            then_form (require_slippage (r.form "slippage")) λ slippage. inr (record {
              user_public_key = key;
              contract_id = r.path_id;
              outcome = outcome;
              share_amount = amount;
              slippage = slippage;
            })
