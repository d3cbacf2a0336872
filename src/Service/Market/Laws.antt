-- ===== src/Service/Market/Laws.antt =====
-- The transactions that the service builds: what a request that succeeds was checked for, and what
-- it became.
use total.Prelude.{
  ℕ, String, Bool, true, false, Option, none, some, [], ◌∷◌, ◌++◌, ◌≡◌, refl, sym, ap, ◌∙◌, arith,
}
use total.Prelude.Int.{ℤ, pos}
use total.Bytes.{Bytes, text, show_int}
use total.Errors.{Error, Result, ok, plain, during, lift, reject, Action, ◌>>=◌, ◌>>◌}
use total.Errors.Laws.{>>=-eq-ok, during-eq-ok, pure-eq-ok}
use total.Model.{TransactionResult}
use total.Stellar.Builder.{build_buy_tx, build_sell_tx, simulate_and_prepare_tx}
use total.Stellar.Builder.Laws.{Signed, build_buy_tx-Signed, build_sell_tx-Signed}
use total.Soroban.Types.{outcome_to_u32}
use total.Soroban.ScVal.{encode_i128, encode_u32}
use total.Soroban.Client.{State}
use total.Service.Requests.{TradeRequest, validate_trade}
use total.Service.Reading.{MarketService, check}
use total.Service.Amount.Laws.{IsTruncation, safe_float_to_int64-IsTruncation}
use total.Service.Quotes.{get_quote, get_sell_quote}
use total.Service.Market.{
  build_buy_tx_for, build_sell_tx_for, scaled_amount, max_cost, min_return, not_positive, prepared,
}
use total.Platform.{Platform}

module _ (P : Platform) where
  open P use {floats}

  pub check-eq-ok :
      (label : String) (o : Option Error) (s : State P) {u : Unit {0}} {t : State P}
      → check label o s ≡ (ok u, t)
      → (o ≡ none) × (t ≡ s)
  check-eq-ok label none s e = (refl, sym (ap (λ q. q.1) e))
  check-eq-ok label (some x) s e = ground arith

  pub reject-eq-ok :
      (bad : Bool) (x : Error) (s : State P) {u : Unit {0}} {t : State P}
      → reject bad x s ≡ (ok u, t)
      → (bad ≡ false) × (t ≡ s)
  reject-eq-ok false x s e = (refl, sym (ap (λ q. q.1) e))
  reject-eq-ok true x s e = ground arith

  pub prepared-eq-ok :
      (m : MarketService) (tx_xdr description sign_with : Bytes) (s : State P)
      {result : TransactionResult} {t : State P}
      → prepared P m tx_xdr description sign_with s ≡ (ok result, t)
      → (simulate_and_prepare_tx P m.tx_builder tx_xdr s ≡ (ok result.xdr, t))
        × (result.sign_with ≡ sign_with)
        × (result.submit_url ≡ m.soroban_client.rpc_url)
  unfolding prepared
  prepared-eq-ok m tx_xdr description sign_with s {result = result} e =
      let (xdr, t1, e1, r1) =
        >>=-eq-ok
          (during "failed to simulate transaction: "
            (simulate_and_prepare_tx P m.tx_builder tx_xdr))
          _ s e in
      let d1 = during-eq-ok _ (simulate_and_prepare_tx P m.tx_builder tx_xdr) s e1 in
      let (made, kept) = pure-eq-ok r1 in
      (
        d1 ∙ ap (λ x. (ok x, t1)) (ap (λ x. x.xdr) made) ∙ ap (λ u. (ok result.xdr, u)) kept,
        sym (ap (λ x. x.sign_with) made),
        sym (ap (λ x. x.submit_url) made),
      )

  -- What lies between a trade's request and the transaction to be signed: the quote is read, its
  -- amount is turned into a limit, and the call is built of the scaled amount, the limit and the
  -- outcome.
  pub record IsTrade (m : MarketService) (r : TradeRequest P) {Q : Type 0}
      (read : Action (State P) Q) (amount_of : Q → ℤ) (exact_limit : floats.Float → floats.Float)
      (IsBuilt : ℤ → ℤ → ℕ → Bytes → State P → State P → Type 0) (s : State P)
      (result : TransactionResult) (t : State P) : Type 0 where
    pub valid : validate_trade P r ≡ none
    pub amount : ℤ
    pub amount_scaled :
        IsTruncation floats (floats.mul r.share_amount (floats.of_int (pos 10_000_000))) amount
    pub quote : Q
    pub quoted : State P
    pub quote_read : read s ≡ (ok quote, quoted)
    pub quote_positive : not_positive (amount_of quote) ≡ false
    pub limit : ℤ
    pub limit_scaled : IsTruncation floats (exact_limit (floats.of_int (amount_of quote))) limit
    pub outcome : ℕ
    pub outcome_encoded : outcome_to_u32 P.quote r.outcome ≡ ok outcome
    pub unprepared : Bytes
    pub built : State P
    pub is_built : IsBuilt amount limit outcome unprepared quoted built
    pub simulated : simulate_and_prepare_tx P m.tx_builder unprepared built ≡ (ok result.xdr, t)
    pub signer : result.sign_with ≡ r.user_public_key
    pub submitted_to : result.submit_url ≡ m.soroban_client.rpc_url

  -- The shape that buying and selling share.
  trade_chain :
      (m : MarketService) (r : TradeRequest P) {Q : Type 0} (l l' l'' : String)
      (read : Action (State P) Q) (amount_of : Q → ℤ) (refusal : Q → Error)
      (limit_of : ℤ → Result ℤ) (build : ℤ → ℤ → ℕ → Action (State P) Bytes) (description : Bytes)
      → Action (State P) TransactionResult
  trade_chain m r l l' l'' read amount_of refusal limit_of build description = do
    check l (validate_trade P r)
    amount ← during "invalid share amount: " (lift (scaled_amount P r.share_amount))
    quote ← during l' read
    reject (not_positive (amount_of quote)) (refusal quote)
    limit ← during l'' (lift (limit_of (amount_of quote)))
    outcome ← during "invalid outcome: " (lift (outcome_to_u32 P.quote r.outcome))
    tx_xdr ← during "failed to build transaction: " (build amount limit outcome)
    prepared P m tx_xdr description r.user_public_key

  trade_chain-IsTrade :
      (m : MarketService) (r : TradeRequest P) {Q : Type 0} (l l' l'' : String)
      (read : Action (State P) Q) (amount_of : Q → ℤ) (refusal : Q → Error)
      (limit_of : ℤ → Result ℤ) (build : ℤ → ℤ → ℕ → Action (State P) Bytes) (description : Bytes)
      (exact_limit : floats.Float → floats.Float)
      (IsBuilt : ℤ → ℤ → ℕ → Bytes → State P → State P → Type 0)
      → ((a k : ℤ) → limit_of a ≡ ok k → IsTruncation floats (exact_limit (floats.of_int a)) k)
      → ((a k : ℤ) (o : ℕ) (u : State P) (xdr : Bytes) (v : State P)
          → build a k o u ≡ (ok xdr, v)
          → IsBuilt a k o xdr u v)
      → (s : State P) {result : TransactionResult} {t : State P}
      → trade_chain m r l l' l'' read amount_of refusal limit_of build description s
        ≡ (ok result, t)
      → IsTrade m r read amount_of exact_limit IsBuilt s result t
  unfolding trade_chain scaled_amount
  trade_chain-IsTrade m r l l' l'' read amount_of refusal limit_of build description exact_limit
        IsBuilt h_limit h s e =
      let (u0, s1, e1, r1) = >>=-eq-ok (check l (validate_trade P r)) _ s e in
      let (amount, s2, e2, r2) =
        >>=-eq-ok (during "invalid share amount: " (lift (scaled_amount P r.share_amount))) _ s1
          r1 in
      let (quote, s3, e3, r3) = >>=-eq-ok (during l' read) _ s2 r2 in
      let (u1, s4, e4, r4) = >>=-eq-ok (reject (not_positive (amount_of quote)) _) _ s3 r3 in
      let (limit, s5, e5, r5) =
        >>=-eq-ok (during l'' (lift (limit_of (amount_of quote)))) _ s4 r4 in
      let (outcome, s6, e6, r6) =
        >>=-eq-ok (during "invalid outcome: " (lift (outcome_to_u32 P.quote r.outcome))) _ s5 r5 in
      let (tx_xdr, s7, e7, r7) =
        >>=-eq-ok (during "failed to build transaction: " (build amount limit outcome)) _ s6 r6 in
      let (valid, k1) = check-eq-ok l (validate_trade P r) s e1 in
      let d2 = during-eq-ok _ (lift (scaled_amount P r.share_amount)) s1 e2 in
      let d3 = during-eq-ok l' read s2 e3 in
      let (positive, k4) = reject-eq-ok (not_positive (amount_of quote)) _ s3 e4 in
      let d5 = during-eq-ok l'' (lift (limit_of (amount_of quote))) s4 e5 in
      let d6 = during-eq-ok _ (lift (outcome_to_u32 P.quote r.outcome)) s5 e6 in
      let d7 = during-eq-ok _ (build amount limit outcome) s6 e7 in
      let (simulated, signer, url) = prepared-eq-ok m tx_xdr _ _ s7 r7 in
      record {
        valid = valid;
        amount = amount;
        amount_scaled = safe_float_to_int64-IsTruncation floats _ amount (ap (λ q. q.0) d2);
        quote = quote;
        quoted = s6;
        quote_read =
            ap read (sym k1 ∙ ap (λ q. q.1) d2)
            ∙ d3
            ∙ ap (λ u. (ok quote, u)) (sym k4 ∙ ap (λ q. q.1) d5 ∙ ap (λ q. q.1) d6);
        quote_positive = positive;
        limit = limit;
        limit_scaled = h_limit (amount_of quote) limit (ap (λ q. q.0) d5);
        outcome = outcome;
        outcome_encoded = ap (λ q. q.0) d6;
        unprepared = tx_xdr;
        built = s7;
        is_built = h amount limit outcome s6 tx_xdr s7 d7;
        simulated = simulated;
        signer = signer;
        submitted_to = url;
      }

  abbrev pub IsBuyCall :
      MarketService → TradeRequest P → ℤ → ℤ → ℕ → Bytes → State P → State P → Type 0
  IsBuyCall m r amount limit outcome = Signed P m.tx_builder r.user_public_key (λ source address.
      record {
        source_account = source;
        contract_id = r.contract_id;
        function_name = text "buy";
        args = address ∷ encode_u32 outcome ∷ encode_i128 amount ∷ encode_i128 limit ∷ [];
        auth = [];
      })

  pub build_buy_tx_for-IsTrade :
      (m : MarketService) (r : TradeRequest P) (s : State P) {result : TransactionResult}
      {t : State P}
      → build_buy_tx_for P m r s ≡ (ok result, t)
      → IsTrade m r
          (get_quote P m r.contract_id r.outcome r.share_amount)
          (λ q. q.cost)
          (λ a. floats.mul a (floats.add (floats.of_int (pos 1)) r.slippage))
          (IsBuyCall m r)
          s
          result
          t
  unfolding build_buy_tx_for trade_chain max_cost
  build_buy_tx_for-IsTrade m r s e =
      let build : ℤ → ℤ → ℕ → Action (State P) Bytes = λ a k o.
        build_buy_tx P m.tx_builder (record {
          user_public_key = r.user_public_key;
          contract_id = r.contract_id;
          outcome = o;
          amount = a;
          max_cost = k;
        }) in
      trade_chain-IsTrade m r "buy request validation failed: " "failed to get quote: "
        "max cost calculation overflow: " _ _
        (λ q.
          plain
            (text "invalid quote cost: " ++ (show_int q.cost ++ text " (expected positive value)")))
        _ build
        (text "Buy "
          ++ (floats.show_fixed 2 r.share_amount ++ (text " " ++ (r.outcome ++ text " tokens"))))
        _ (IsBuyCall m r) (λ a k. safe_float_to_int64-IsTruncation floats _ k)
        (λ a k o u xdr v d. build_buy_tx-Signed P m.tx_builder _ u d) s e

  abbrev pub IsSellCall :
      MarketService → TradeRequest P → ℤ → ℤ → ℕ → Bytes → State P → State P → Type 0
  IsSellCall m r amount limit outcome = Signed P m.tx_builder r.user_public_key (λ source address.
      record {
        source_account = source;
        contract_id = r.contract_id;
        function_name = text "sell";
        args = address ∷ encode_u32 outcome ∷ encode_i128 amount ∷ encode_i128 limit ∷ [];
        auth = [];
      })

  pub build_sell_tx_for-IsTrade :
      (m : MarketService) (r : TradeRequest P) (s : State P) {result : TransactionResult}
      {t : State P}
      → build_sell_tx_for P m r s ≡ (ok result, t)
      → IsTrade m r
          (get_sell_quote P m r.contract_id r.outcome r.share_amount)
          (λ q. q.return_amount)
          (λ a. floats.mul a (floats.sub (floats.of_int (pos 1)) r.slippage))
          (IsSellCall m r)
          s
          result
          t
  unfolding build_sell_tx_for trade_chain min_return
  build_sell_tx_for-IsTrade m r s e =
      let build : ℤ → ℤ → ℕ → Action (State P) Bytes = λ a k o.
        build_sell_tx P m.tx_builder (record {
          user_public_key = r.user_public_key;
          contract_id = r.contract_id;
          outcome = o;
          amount = a;
          min_return = k;
        }) in
      trade_chain-IsTrade m r "sell request validation failed: " "failed to get sell quote: "
        "min return calculation overflow: " _ _
        (λ q. plain (
          text "invalid sell return: "
          ++ (show_int q.return_amount ++ text " (expected positive value)")))
        _ build
        (text "Sell "
          ++ (floats.show_fixed 2 r.share_amount ++ (text " " ++ (r.outcome ++ text " tokens"))))
        _ (IsSellCall m r) (λ a k. safe_float_to_int64-IsTruncation floats _ k)
        (λ a k o u xdr v d. build_sell_tx-Signed P m.tx_builder _ u d) s e
