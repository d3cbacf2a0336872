-- ===== src/Service/Quotes.antt =====
-- internal/service/market.go: the quotes for buying and for selling.
use total.Prelude.Int.{ℤ}
use total.Bytes.{Bytes}
use total.Errors.{Action, ◌>>=◌, during, lift, pure}
use total.Model.{Outcome}
use total.Stellar.Queries.{build_get_quote_tx, build_get_sell_quote_tx}
use total.Soroban.Types.{outcome_to_u32}
use total.Soroban.Address.{decode_vec}
use total.Soroban.Client.{State}
use total.Service.Amount.{safe_float_to_int64, scale}
use total.Service.Reading.{MarketService, read_contract, decode_pair}
use total.Platform.{Platform}

module _ (P : Platform) where
  open P use {floats}

  pub record Quote : Type 0 where
    pub cost : ℤ
    pub price_after : floats.Float

  pub record SellQuote : Type 0 where
    pub return_amount : ℤ
    pub price_after : floats.Float

  unfoldable pub get_quote : MarketService → Bytes → Outcome → floats.Float → Action (State P) Quote
  get_quote m contract_id outcome amount = do
    amount_scaled ←
        during "invalid quote amount: "
          (lift (safe_float_to_int64 floats (floats.mul amount (scale floats))))
    outcome_u32 ← during "invalid outcome: " (lift (outcome_to_u32 P.quote outcome))
    tx_xdr ← during "failed to build quote transaction: " (
        build_get_quote_tx P m.tx_builder (record {
          user_public_key = m.oracle_public_key;
          contract_id = contract_id;
          outcome = outcome_u32;
          amount = amount_scaled;
        }))
    value ← read_contract P m.soroban_client "failed to simulate quote: " tx_xdr
    tuple ←
        during "failed to decode quote result: expected (cost, price_after) tuple: "
          (lift (decode_vec value))
    (cost, price) ← lift (
        decode_pair "failed to decode cost from tuple: " "failed to decode price_after from tuple: "
          tuple)
    pure (record { cost = cost; price_after = floats.div (floats.of_int price) (scale floats) })

  unfoldable pub get_sell_quote :
      MarketService → Bytes → Outcome → floats.Float → Action (State P) SellQuote
  get_sell_quote m contract_id outcome amount = do
    amount_scaled ←
        during "invalid sell quote amount: "
          (lift (safe_float_to_int64 floats (floats.mul amount (scale floats))))
    outcome_u32 ← during "invalid outcome: " (lift (outcome_to_u32 P.quote outcome))
    tx_xdr ← during "failed to build sell quote transaction: " (
        build_get_sell_quote_tx P m.tx_builder (record {
          user_public_key = m.oracle_public_key;
          contract_id = contract_id;
          outcome = outcome_u32;
          amount = amount_scaled;
        }))
    value ← read_contract P m.soroban_client "failed to simulate sell quote: " tx_xdr
    tuple ←
        during "failed to decode sell quote result: expected (return_amount, price_after) tuple: "
          (lift (decode_vec value))
    (amount_back, price) ← lift (
        decode_pair "failed to decode return_amount from tuple: "
          "failed to decode price_after from tuple: " tuple)
    pure (record {
      return_amount = amount_back;
      price_after = floats.div (floats.of_int price) (scale floats);
    })
