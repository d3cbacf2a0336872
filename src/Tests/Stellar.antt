-- ===== src/Tests/Stellar.antt =====
-- The theorems on the builder, at concrete inputs.
use total.Prelude.{replicate}
use total.Prelude.Int.{pos}
use total.Bytes.{text}
use total.Stellar.Params.{
  BuyTxParams, SellTxParams, ResolveTxParams, ClaimTxParams, WithdrawTxParams, DeployMarketTxParams,
}
use total.Demo.{demo_contract, demo_key}

abbrev buy_params : BuyTxParams
buy_params = record {
  user_public_key = demo_key;
  contract_id = demo_contract;
  outcome = 1;
  amount = pos 500;
  max_cost = pos 900;
}

abbrev sell_params : SellTxParams
sell_params = record {
  user_public_key = demo_key;
  contract_id = demo_contract;
  outcome = 0;
  amount = pos 500;
  min_return = pos 90;
}

abbrev resolve_params : ResolveTxParams
resolve_params = record {
  oracle_public_key = demo_key;
  contract_id = demo_contract;
  winning_outcome = 1;
}

abbrev claim_params : ClaimTxParams
claim_params = record { user_public_key = demo_key; contract_id = demo_contract }

abbrev withdraw_params : WithdrawTxParams
withdraw_params = record { oracle_public_key = demo_key; contract_id = demo_contract }

abbrev deploy_market_params : DeployMarketTxParams
deploy_market_params = record {
  oracle_public_key = demo_key;
  factory_contract = demo_contract;
  liquidity_param = pos 1000;
  metadata_hash = text "Qm";
  initial_funding = pos 700;
  salt = replicate 32 7;
}
