-- ===== src/Stellar/Builder/Laws.antt =====
-- The invocations that the builder makes say what the parameters say.
use total.Prelude.{String, Option-cases, inl, inr, ap, sym, ◌∙◌, [], ◌∷◌, ◌≡◌, arith, some}
use total.Bytes.{Bytes, text}
use total.Errors.{ok, Action, lift, during, ◌>>=◌}
use total.Errors.Laws.{continue-eq-ok, relabel-eq-ok, >>=-eq-ok, during-eq-ok}
use total.Soroban.ScVal.{ScVal, contract, encode_i128, encode_u32, encode_string, encode_bytes32}
use total.Soroban.Address.{copy32, encode_address}
use total.Soroban.Client.{State}
use total.Soroban.Invoker.{ContractInvoker, InvokeParams, build_invoke_tx}
use total.Stellar.Horizon.{get_account}
use total.Stellar.Params.{
  BuyTxParams, SellTxParams, ResolveTxParams, ClaimTxParams, WithdrawTxParams, DeployMarketTxParams,
}
use total.Stellar.Builder.{
  Builder, require_invoker, build_buy_tx, build_sell_tx, build_resolve_tx, build_claim_tx,
  build_withdraw_tx, build_deploy_market_tx,
}
use total.Platform.{Platform}

module _ (P : Platform) where
  -- The text of a transaction is that of one call: of a function of a contract, by an account of
  -- the network, with some arguments, at the builder's base fee.
  pub record IsCall (ci : ContractInvoker) (params : InvokeParams P) (xdr : Bytes) : Type 0 where
    pub id : Bytes
    pub built : P.Built
    pub decoded : P.strkey_decode contract params.contract_id ≡ ok id
    pub made :
        P.new_transaction (record {
          source_account = params.source_account;
          contract_id = copy32 id;
          function_name = params.function_name;
          args = params.args;
          auth = params.auth;
          base_fee = ci.base_fee;
        })
        ≡ ok built
    pub encoded : P.built_base64 built ≡ ok xdr

  pub build_invoke_tx-IsCall :
      (ci : ContractInvoker) (params : InvokeParams P) (s : State P) {xdr : Bytes} {t : State P}
      → build_invoke_tx P ci params s ≡ (ok xdr, t)
      → IsCall ci params xdr × (t ≡ s)
  unfolding build_invoke_tx
  build_invoke_tx-IsCall ci params s e =
      let (id, t1, e1, r1) = continue-eq-ok _ _ e in
      let (tx, t2, e2, r2) = continue-eq-ok _ _ r1 in
      let d1 = relabel-eq-ok _ _ e1 in
      let d2 = relabel-eq-ok _ _ e2 in
      let d3 = relabel-eq-ok _ _ r2 in
      (
        record {
          id = id;
          built = tx;
          decoded = ap (λ q. q.0) d1;
          made = ap (λ q. q.0) d2;
          encoded = ap (λ q. q.0) d3;
        },
        sym (ap (λ q. q.1) d3) ∙ sym (ap (λ q. q.1) d2) ∙ sym (ap (λ q. q.1) d1),
      )

  pub require_invoker-eq-ok :
      (b : Builder) (s : State P) {ci : ContractInvoker} {t : State P}
      → require_invoker P b s ≡ (ok ci, t)
      → (b.contract_invoker ≡ some ci) × (t ≡ s)
  unfolding require_invoker
  require_invoker-eq-ok b s e = elim (Option-cases b.contract_invoker) [
    | inl missing ↦ ground (arith, missing)
    | inr (c, found) ↦ ground (arith, found)
  ]

  -- What a builder call made: a call signed by an account, whose address the arguments hold.
  abbrev pub Signed :
      Builder → Bytes → (P.Account → ScVal → InvokeParams P) → Bytes → State P → State P → Type 0
  Signed b key make xdr s t =
      (ci : ContractInvoker) × (source : P.Account) × (address : ScVal) × (b.contract_invoker
        ≡ some ci)
      × (get_account P b.client key s ≡ (ok source, t))
      × (encode_address P key ≡ ok address)
      × IsCall ci (make source address) xdr

  signed_call :
      String
      → String
      → Builder
      → Bytes
      → (P.Account → ScVal → InvokeParams P)
      → Action (State P) Bytes
  signed_call l l' b key make = do
    ci ← require_invoker P b
    source ← during l (get_account P b.client key)
    address ← during l' (lift (encode_address P key))
    build_invoke_tx P ci (make source address)

  signed_call-Signed :
      (l l' : String) (b : Builder) (key : Bytes) (make : P.Account → ScVal → InvokeParams P)
      (s : State P) {xdr : Bytes} {t : State P}
      → signed_call l l' b key make s ≡ (ok xdr, t)
      → Signed b key make xdr s t
  unfolding signed_call
  signed_call-Signed l l' b key make s {t = t} e =
      let (ci, t1, e1, r1) = >>=-eq-ok (require_invoker P b) _ s e in
      let (source, t2, e2, r2) = >>=-eq-ok (during l (get_account P b.client key)) _ t1 r1 in
      let (address, t3, e3, r3) = >>=-eq-ok (during l' (lift (encode_address P key))) _ t2 r2 in
      let (invoker, kept) = require_invoker-eq-ok b s e1 in
      let d2 = during-eq-ok l (get_account P b.client key) t1 e2 in
      let d3 = during-eq-ok l' (lift (encode_address P key)) t2 e3 in
      let (call, same) = build_invoke_tx-IsCall ci (make source address) t3 r3 in
      let loaded =
        ap (get_account P b.client key) (sym kept)
        ∙ d2
        ∙ ap (λ u. (ok source, u)) (ap (λ q. q.1) d3 ∙ sym same) in
      (ci, source, address, invoker, loaded, ap (λ q. q.0) d3, call)

  -- A buy transaction that is built is a call of `buy` in the contract of the parameters, by the account
  -- of the user, with the user's address, the outcome, the amount and the greatest cost.
  pub build_buy_tx-Signed :
      (b : Builder) (p : BuyTxParams) (s : State P) {xdr : Bytes} {t : State P}
      → build_buy_tx P b p s ≡ (ok xdr, t)
      → Signed b p.user_public_key
          (λ source address. record {
            source_account = source;
            contract_id = p.contract_id;
            function_name = text "buy";
            args =
                address ∷ encode_u32 p.outcome ∷ encode_i128 p.amount ∷ encode_i128 p.max_cost ∷ [];
            auth = [];
          })
          xdr
          s
          t
  unfolding build_buy_tx signed_call
  build_buy_tx-Signed b p s e =
      signed_call-Signed "failed to get user account: " "failed to encode user address: " b
        p.user_public_key
        (λ source address. record {
          source_account = source;
          contract_id = p.contract_id;
          function_name = text "buy";
          args =
              address ∷ encode_u32 p.outcome ∷ encode_i128 p.amount ∷ encode_i128 p.max_cost ∷ [];
          auth = [];
        })
        s e

  -- A sell transaction that is built is a call of `sell` in the contract of the parameters, by the
  -- account of the user, with the user's address, the outcome, the amount and the least return.
  pub build_sell_tx-Signed :
      (b : Builder) (p : SellTxParams) (s : State P) {xdr : Bytes} {t : State P}
      → build_sell_tx P b p s ≡ (ok xdr, t)
      → Signed b p.user_public_key
          (λ source address. record {
            source_account = source;
            contract_id = p.contract_id;
            function_name = text "sell";
            args =
                address
                ∷ encode_u32 p.outcome
                ∷ encode_i128 p.amount
                ∷ encode_i128 p.min_return
                ∷ [];
            auth = [];
          })
          xdr
          s
          t
  unfolding build_sell_tx signed_call
  build_sell_tx-Signed b p s e =
      signed_call-Signed "failed to get user account: " "failed to encode user address: " b
        p.user_public_key
        (λ source address. record {
          source_account = source;
          contract_id = p.contract_id;
          function_name = text "sell";
          args =
              address ∷ encode_u32 p.outcome ∷ encode_i128 p.amount ∷ encode_i128 p.min_return ∷ [];
          auth = [];
        })
        s e

  -- A resolve transaction that is built is a call of `resolve` in the contract of the parameters, by
  -- the account of the oracle, with the oracle's address and the winning outcome.
  pub build_resolve_tx-Signed :
      (b : Builder) (p : ResolveTxParams) (s : State P) {xdr : Bytes} {t : State P}
      → build_resolve_tx P b p s ≡ (ok xdr, t)
      → Signed b p.oracle_public_key
          (λ source address. record {
            source_account = source;
            contract_id = p.contract_id;
            function_name = text "resolve";
            args = address ∷ encode_u32 p.winning_outcome ∷ [];
            auth = [];
          })
          xdr
          s
          t
  unfolding build_resolve_tx signed_call
  build_resolve_tx-Signed b p s e =
      signed_call-Signed "failed to get oracle account: " "failed to encode oracle address: " b
        p.oracle_public_key
        (λ source address. record {
          source_account = source;
          contract_id = p.contract_id;
          function_name = text "resolve";
          args = address ∷ encode_u32 p.winning_outcome ∷ [];
          auth = [];
        })
        s e

  -- A claim transaction that is built is a call of `claim` in the contract of the parameters, by the
  -- account of the user, with the user's address.
  pub build_claim_tx-Signed :
      (b : Builder) (p : ClaimTxParams) (s : State P) {xdr : Bytes} {t : State P}
      → build_claim_tx P b p s ≡ (ok xdr, t)
      → Signed b p.user_public_key
          (λ source address. record {
            source_account = source;
            contract_id = p.contract_id;
            function_name = text "claim";
            args = address ∷ [];
            auth = [];
          })
          xdr
          s
          t
  unfolding build_claim_tx signed_call
  build_claim_tx-Signed b p s e =
      signed_call-Signed "failed to get user account: " "failed to encode user address: " b
        p.user_public_key
        (λ source address. record {
          source_account = source;
          contract_id = p.contract_id;
          function_name = text "claim";
          args = address ∷ [];
          auth = [];
        })
        s e

  -- A withdraw transaction that is built is a call of `withdraw_remaining` in the contract of the
  -- parameters, by the account of the oracle, with the oracle's address.
  pub build_withdraw_tx-Signed :
      (b : Builder) (p : WithdrawTxParams) (s : State P) {xdr : Bytes} {t : State P}
      → build_withdraw_tx P b p s ≡ (ok xdr, t)
      → Signed b p.oracle_public_key
          (λ source address. record {
            source_account = source;
            contract_id = p.contract_id;
            function_name = text "withdraw_remaining";
            args = address ∷ [];
            auth = [];
          })
          xdr
          s
          t
  unfolding build_withdraw_tx signed_call
  build_withdraw_tx-Signed b p s e =
      signed_call-Signed "failed to get oracle account: " "failed to encode oracle address: " b
        p.oracle_public_key
        (λ source address. record {
          source_account = source;
          contract_id = p.contract_id;
          function_name = text "withdraw_remaining";
          args = address ∷ [];
          auth = [];
        })
        s e

  -- A deploy transaction that is built is a call of `deploy_market` in the factory contract, by the
  -- account of the oracle, with the oracle's address, the liquidity parameter, the hash of the
  -- metadata, the initial funding and the salt.
  pub build_deploy_market_tx-Signed :
      (b : Builder) (p : DeployMarketTxParams) (s : State P) {xdr : Bytes} {t : State P}
      → build_deploy_market_tx P b p s ≡ (ok xdr, t)
      → Signed b p.oracle_public_key
          (λ source address. record {
            source_account = source;
            contract_id = p.factory_contract;
            function_name = text "deploy_market";
            args =
                address
                ∷ encode_i128 p.liquidity_param
                ∷ encode_string p.metadata_hash
                ∷ encode_i128 p.initial_funding
                ∷ encode_bytes32 p.salt
                ∷ [];
            auth = [];
          })
          xdr
          s
          t
  unfolding build_deploy_market_tx signed_call
  build_deploy_market_tx-Signed b p s e =
      signed_call-Signed "failed to get oracle account: " "failed to encode oracle address: " b
        p.oracle_public_key
        (λ source address. record {
          source_account = source;
          contract_id = p.factory_contract;
          function_name = text "deploy_market";
          args =
              address
              ∷ encode_i128 p.liquidity_param
              ∷ encode_string p.metadata_hash
              ∷ encode_i128 p.initial_funding
              ∷ encode_bytes32 p.salt
              ∷ [];
          auth = [];
        })
        s e
