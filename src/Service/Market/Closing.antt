-- ===== src/Service/Market/Closing.antt =====
-- internal/service/market.go: the transactions that close a market, and what a request of one that
-- succeeds became.
use total.Prelude.{ℕ, String, Option, none, [], ◌∷◌, ◌++◌, ◌≡◌, sym, ap, ◌∙◌}
use total.Bytes.{Bytes, text}
use total.Errors.{Error, ok, during, lift, Action, ◌>>=◌, ◌>>◌}
use total.Errors.Laws.{>>=-eq-ok, during-eq-ok}
use total.Model.{TransactionResult}
use total.Stellar.Builder.{
  build_resolve_tx, build_claim_tx, build_withdraw_tx, simulate_and_prepare_tx,
}
use total.Stellar.Builder.Laws.{
  Signed, build_resolve_tx-Signed, build_claim_tx-Signed, build_withdraw_tx-Signed,
}
use total.Soroban.Types.{outcome_to_u32}
use total.Soroban.ScVal.{encode_u32}
use total.Soroban.Client.{State}
use total.Service.Requests.{
  ResolveRequest, ClaimRequest, WithdrawRequest, validate_resolve, validate_claim,
  validate_withdraw,
}
use total.Service.Reading.{MarketService, check}
use total.Service.Market.{build_resolve_tx_for, build_claim_tx_for, build_withdraw_tx_for, prepared}
use total.Service.Market.Laws.{check-eq-ok, prepared-eq-ok}
use total.Platform.{Platform}

module _ (P : Platform) where
  -- What lies between a checked request and the transaction to be signed: the call is built, and it is
  -- simulated as it was built.
  pub record IsPrepared (m : MarketService) (key : Bytes)
      (IsBuilt : Bytes → State P → State P → Type 0) (s : State P) (result : TransactionResult)
      (t : State P) : Type 0 where
    pub unprepared : Bytes
    pub built : State P
    pub is_built : IsBuilt unprepared s built
    pub simulated : simulate_and_prepare_tx P m.tx_builder unprepared built ≡ (ok result.xdr, t)
    pub signer : result.sign_with ≡ key
    pub submitted_to : result.submit_url ≡ m.soroban_client.rpc_url

  closing :
      MarketService → Action (State P) Bytes → Bytes → Bytes → Action (State P) TransactionResult
  closing m build description key = do
    tx_xdr ← during "failed to build transaction: " build
    prepared P m tx_xdr description key

  closing-IsPrepared :
      (m : MarketService) (build : Action (State P) Bytes) (description key : Bytes)
      (IsBuilt : Bytes → State P → State P → Type 0) (s : State P)
      → ((xdr : Bytes) (v : State P) → build s ≡ (ok xdr, v) → IsBuilt xdr s v)
      → {result : TransactionResult} {t : State P}
      → closing m build description key s ≡ (ok result, t)
      → IsPrepared m key IsBuilt s result t
  unfolding closing
  closing-IsPrepared m build description key IsBuilt s h e =
      let (tx_xdr, v, e1, r1) = >>=-eq-ok (during "failed to build transaction: " build) _ s e in
      let (simulated, signer, url) = prepared-eq-ok P m tx_xdr description key v r1 in
      record {
        unprepared = tx_xdr;
        built = v;
        is_built = h tx_xdr v (during-eq-ok _ build s e1);
        simulated = simulated;
        signer = signer;
        submitted_to = url;
      }

  checked :
      String
      → Option Error
      → Action (State P) TransactionResult
      → Action (State P) TransactionResult
  checked l o rest = do check l o; rest

  checked-eq-ok :
      (l : String) (o : Option Error) (rest : Action (State P) TransactionResult) (s : State P)
      {result : TransactionResult} {t : State P}
      → checked l o rest s ≡ (ok result, t)
      → (o ≡ none) × (rest s ≡ (ok result, t))
  unfolding checked
  checked-eq-ok l o rest s e =
      let (u, s1, e1, r1) = >>=-eq-ok (check l o) _ s e in
      let (valid, kept) = check-eq-ok P l o s e1 in (valid, ap rest (sym kept) ∙ r1)

  abbrev pub IsResolveCall : MarketService → ResolveRequest → ℕ → Bytes → State P → State P → Type 0
  IsResolveCall m r outcome = Signed P m.tx_builder r.oracle_public_key (λ source address. record {
    source_account = source;
    contract_id = r.contract_id;
    function_name = text "resolve";
    args = address ∷ encode_u32 outcome ∷ [];
    auth = [];
  })

  abbrev pub IsClaimCall : MarketService → ClaimRequest → Bytes → State P → State P → Type 0
  IsClaimCall m r = Signed P m.tx_builder r.user_public_key (λ source address. record {
    source_account = source;
    contract_id = r.contract_id;
    function_name = text "claim";
    args = address ∷ [];
    auth = [];
  })

  abbrev pub IsWithdrawCall : MarketService → WithdrawRequest → Bytes → State P → State P → Type 0
  IsWithdrawCall m r = Signed P m.tx_builder r.oracle_public_key (λ source address. record {
    source_account = source;
    contract_id = r.contract_id;
    function_name = text "withdraw_remaining";
    args = address ∷ [];
    auth = [];
  })

  -- A market's resolution that is built was a valid request, and is the prepared call of `resolve` in
  -- its contract by the oracle, with the encoded outcome.
  pub build_resolve_tx_for-IsPrepared :
      (m : MarketService) (r : ResolveRequest) (s : State P) {result : TransactionResult}
      {t : State P}
      → build_resolve_tx_for P m r s ≡ (ok result, t)
      → (validate_resolve P r ≡ none)
        × (outcome : ℕ) × (outcome_to_u32 P.quote r.winning_outcome ≡ ok outcome)
        × IsPrepared m r.oracle_public_key (IsResolveCall m r outcome) s result t
  unfolding build_resolve_tx_for checked closing
  build_resolve_tx_for-IsPrepared m r s {t = t} e =
      let (valid, rest) = checked-eq-ok _ (validate_resolve P r) _ s e in
      let encode : Action (State P) ℕ = lift (outcome_to_u32 P.quote r.winning_outcome) in
      let (outcome, s1, e1, r1) = >>=-eq-ok (during "invalid outcome: " encode) _ s rest in
      let d1 = during-eq-ok "invalid outcome: " encode s e1 in
      let kept : s ≡ s1 = ap (λ q. q.1) d1 in
      (
        valid,
        outcome,
        ap (λ q. q.0) d1,
        closing-IsPrepared m
            (build_resolve_tx P m.tx_builder (record {
              oracle_public_key = r.oracle_public_key;
              contract_id = r.contract_id;
              winning_outcome = outcome;
            }))
            (text "Resolve market: " ++ (r.winning_outcome ++ text " wins")) r.oracle_public_key
            (IsResolveCall m r outcome) s (λ xdr v. build_resolve_tx-Signed P m.tx_builder _ s)
            (rw kept r1),
      )

  -- A claim that is built was a valid request, and is the prepared call of `claim` in its contract by
  -- the user.
  pub build_claim_tx_for-IsPrepared :
      (m : MarketService) (r : ClaimRequest) (s : State P) {result : TransactionResult}
      {t : State P}
      → build_claim_tx_for P m r s ≡ (ok result, t)
      → (validate_claim P r ≡ none) × IsPrepared m r.user_public_key (IsClaimCall m r) s result t
  unfolding build_claim_tx_for checked closing
  build_claim_tx_for-IsPrepared m r s e =
      let (valid, rest) = checked-eq-ok _ (validate_claim P r) _ s e in
      (
        valid,
        closing-IsPrepared m
            (build_claim_tx P m.tx_builder
              (record { user_public_key = r.user_public_key; contract_id = r.contract_id }))
            _ r.user_public_key (IsClaimCall m r) s
            (λ xdr v. build_claim_tx-Signed P m.tx_builder _ s) rest,
      )

  -- A withdrawal that is built was a valid request, and is the prepared call of `withdraw_remaining`
  -- in its contract by the oracle.
  pub build_withdraw_tx_for-IsPrepared :
      (m : MarketService) (r : WithdrawRequest) (s : State P) {result : TransactionResult}
      {t : State P}
      → build_withdraw_tx_for P m r s ≡ (ok result, t)
      → (validate_withdraw P r ≡ none)
        × IsPrepared m r.oracle_public_key (IsWithdrawCall m r) s result t
  unfolding build_withdraw_tx_for checked closing
  build_withdraw_tx_for-IsPrepared m r s e =
      let (valid, rest) = checked-eq-ok _ (validate_withdraw P r) _ s e in
      (
        valid,
        closing-IsPrepared m
            (build_withdraw_tx P m.tx_builder
              (record { oracle_public_key = r.oracle_public_key; contract_id = r.contract_id }))
            _ r.oracle_public_key (IsWithdrawCall m r) s
            (λ xdr v. build_withdraw_tx-Signed P m.tx_builder _ s) rest,
      )
