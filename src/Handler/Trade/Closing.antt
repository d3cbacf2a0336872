-- ===== src/Handler/Trade/Closing.antt =====
-- internal/handler/market.go: what the page of a transaction that closes a market says of its request.
use total.Prelude.{ℕ, none, inr, ◌≡◌, refl, sym, ap, ◌∙◌}
use total.Bytes.{trim_space}
use total.Errors.{ok}
use total.Model.{TransactionResult, parse_outcome}
use total.Soroban.Types.{outcome_to_u32}
use total.Soroban.Client.{State}
use total.Service.Requests.{ResolveRequest, ClaimRequest, WithdrawRequest}
use total.Service.Market.{build_resolve_tx_for, build_claim_tx_for, build_withdraw_tx_for}
use total.Service.Market.Closing.{
  IsPrepared, IsResolveCall, IsClaimCall, IsWithdrawCall, build_resolve_tx_for-IsPrepared,
  build_claim_tx_for-IsPrepared, build_withdraw_tx_for-IsPrepared,
}
use total.Handler.Web.{Request, Web, MarketHandler, common, page, Page}
use total.Handler.Forms.{require_form, require_address, require_outcome}
use total.Handler.Trade.{
  transaction_of, resolve_form, claim_form, withdraw_form, handle_resolve_market,
  handle_build_claim_tx, handle_build_withdraw_tx,
}
use total.Handler.Trade.Laws.{
  then_form-ensures, inr-ensures, outcome_of-eq-inr, require_address-eq-inr, finish-eq-page,
  on_form-eq-page,
}
use total.Platform.{Platform}

module _ (P : Platform) (W : Web P) where
  -- What each form holds where it is accepted.
  abbrev pub IsResolveForm : MarketHandler P W → Request → ResolveRequest → Type 0
  IsResolveForm h r q =
      (q.oracle_public_key ≡ h.oracle_public_key)
      × (q.contract_id ≡ r.path_id)
      × (parse_outcome (r.form "outcome") ≡ ok q.winning_outcome)

  abbrev pub IsClaimForm : Request → ClaimRequest → Type 0
  IsClaimForm r q =
      (q.user_public_key ≡ trim_space (r.form "user_public_key"))
      × (q.contract_id ≡ r.path_id)
      × (P.parse_address q.user_public_key ≡ none)

  abbrev pub IsWithdrawForm : Request → WithdrawRequest → Type 0
  IsWithdrawForm r q =
      (q.oracle_public_key ≡ trim_space (r.form "oracle_public_key"))
      × (q.contract_id ≡ r.path_id)
      × (P.parse_address q.oracle_public_key ≡ none)

  resolve_form-IsResolveForm :
      (h : MarketHandler P W) (r : Request) (q : ResolveRequest)
      → resolve_form P W h r ≡ inr q
      → IsResolveForm h r q
  unfolding resolve_form require_outcome
  resolve_form-IsResolveForm h r =
      then_form-ensures (IsResolveForm h r) (require_form r) _ λ u at_form.
        then_form-ensures (IsResolveForm h r) (require_outcome (r.form "outcome")) _
          λ outcome at_outcome.
            inr-ensures (IsResolveForm h r) _ (refl, refl, outcome_of-eq-inr _ at_outcome)

  claim_form-IsClaimForm :
      (r : Request) (q : ClaimRequest) → claim_form P W r ≡ inr q → IsClaimForm r q
  unfolding claim_form
  claim_form-IsClaimForm r = then_form-ensures (IsClaimForm r) (require_form r) _ λ u at_form.
      then_form-ensures (IsClaimForm r) (require_address P (trim_space (r.form "user_public_key")))
        _
        λ key at_key.
          let (same, parsed) = require_address-eq-inr P _ at_key in
          inr-ensures (IsClaimForm r) _ (sym same, refl, ap P.parse_address (sym same) ∙ parsed)

  withdraw_form-IsWithdrawForm :
      (r : Request) (q : WithdrawRequest) → withdraw_form P W r ≡ inr q → IsWithdrawForm r q
  unfolding withdraw_form
  withdraw_form-IsWithdrawForm r =
      then_form-ensures (IsWithdrawForm r) (require_form r) _ λ u at_form.
        then_form-ensures (IsWithdrawForm r)
          (require_address P (trim_space (r.form "oracle_public_key"))) _
          λ key at_key.
            let (same, parsed) = require_address-eq-inr P _ at_key in
            inr-ensures (IsWithdrawForm r) _
              (sym same, refl, ap P.parse_address (sym same) ∙ parsed)

  -- Where `handle_resolve_market` answers with a page, the page is that of a transaction of the
  -- market in the path, on the handler's network, and the transaction is the prepared call of
  -- `resolve` in that market's contract by the handler's oracle, to be signed with the oracle's key
  -- whatever the form says, with the encoding of the outcome that the form names.
  pub handle_resolve_market-IsPrepared :
      (h : MarketHandler P W) (r : Request) (s : State P) {p : Page P} {t : State P}
      → handle_resolve_market P W h r s ≡ (page p, t)
      → (q : ResolveRequest) × (result : TransactionResult) × (outcome : ℕ) × IsResolveForm h r q
        × (transaction_of P W h r r.path_id (common P W h r "oracle") result ≡ p)
        × (outcome_to_u32 P.quote q.winning_outcome ≡ ok outcome)
        × IsPrepared P h.market_service q.oracle_public_key
            (IsResolveCall P h.market_service q outcome)
            s
            result
            t
  unfolding handle_resolve_market
  handle_resolve_market-IsPrepared h r s e =
      let (q, formed, answered) = on_form-eq-page P W (resolve_form P W h r) _ s e in
      let (result, built, shown) =
        finish-eq-page P W h r (build_resolve_tx_for P h.market_service q s) _ answered in
      let (valid, outcome, encoded, prepared) =
        build_resolve_tx_for-IsPrepared P h.market_service q s built in
      (q, result, outcome, resolve_form-IsResolveForm h r q formed, shown, encoded, prepared)

  -- Where `handle_build_claim_tx` answers with a page, the page is that of a transaction of the market
  -- in the path, on the handler's network, for a form that was accepted, whose key is an address. The
  -- transaction is the prepared call of `claim` in that market's contract by the form's key, which is
  -- to sign it.
  pub handle_build_claim_tx-IsPrepared :
      (h : MarketHandler P W) (r : Request) (s : State P) {p : Page P} {t : State P}
      → handle_build_claim_tx P W h r s ≡ (page p, t)
      → (q : ClaimRequest) × (result : TransactionResult) × IsClaimForm r q
        × (transaction_of P W h r r.path_id (common P W h r "markets") result ≡ p)
        × IsPrepared P h.market_service q.user_public_key
            (IsClaimCall P h.market_service q)
            s
            result
            t
  unfolding handle_build_claim_tx
  handle_build_claim_tx-IsPrepared h r s e =
      let (q, formed, answered) = on_form-eq-page P W (claim_form P W r) _ s e in
      let (result, built, shown) =
        finish-eq-page P W h r (build_claim_tx_for P h.market_service q s) _ answered in
      let (valid, prepared) = build_claim_tx_for-IsPrepared P h.market_service q s built in
      (q, result, claim_form-IsClaimForm r q formed, shown, prepared)

  -- Where `handle_build_withdraw_tx` answers with a page, the page is that of a transaction of the
  -- market in the path, on the handler's network, for a form that was accepted, whose key is an
  -- address. The transaction is the prepared call of `withdraw_remaining` in that market's contract by
  -- the form's key, which is to sign it.
  pub handle_build_withdraw_tx-IsPrepared :
      (h : MarketHandler P W) (r : Request) (s : State P) {p : Page P} {t : State P}
      → handle_build_withdraw_tx P W h r s ≡ (page p, t)
      → (q : WithdrawRequest) × (result : TransactionResult) × IsWithdrawForm r q
        × (transaction_of P W h r r.path_id (common P W h r "oracle") result ≡ p)
        × IsPrepared P h.market_service q.oracle_public_key
            (IsWithdrawCall P h.market_service q)
            s
            result
            t
  unfolding handle_build_withdraw_tx
  handle_build_withdraw_tx-IsPrepared h r s e =
      let (q, formed, answered) = on_form-eq-page P W (withdraw_form P W r) _ s e in
      let (result, built, shown) =
        finish-eq-page P W h r (build_withdraw_tx_for P h.market_service q s) _ answered in
      let (valid, prepared) = build_withdraw_tx_for-IsPrepared P h.market_service q s built in
      (q, result, withdraw_form-IsWithdrawForm r q formed, shown, prepared)
