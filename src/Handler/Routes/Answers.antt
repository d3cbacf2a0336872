-- ===== src/Handler/Routes/Answers.antt =====
-- internal/handler/market.go: every handler answers every request.
use total.Prelude.{
  Option, none, some, List, [], ◌∷◌, ◌≡◌, ◌⊎◌, refl, inl, inr, arith, Option-cases, Bool-cases,
}
use total.Bytes.{Bytes, text, is_empty}
use total.Errors.{Result, ok, err, both, value?}
use total.Soroban.Client.{State}
use total.Service.Factory.{FactoryService, MarketState, list_markets}
use total.Service.States.{get_market_states}
use total.Service.Deploy.{build_deploy_market_tx_for}
use total.Service.Market.{
  build_buy_tx_for, build_sell_tx_for, build_resolve_tx_for, build_claim_tx_for,
  build_withdraw_tx_for,
}
use total.Model.{Market}
use total.Service.Quotes.{Quote, get_quote}
use total.Chart.Laws.{SamplesForward}
use total.Handler.ErrorMap.Laws.{map_error_status}
use total.Handler.Web.{
  Web, Request, Reply, Schedule, MarketHandler, Page, finish, write_error, WalletReply, not_created,
  not_sent, not_read, replied, common, quote_page,
}
use total.Handler.Forms.{Form, trade_form, require_outcome, require_positive}
use total.Handler.Trade.{
  deploy_form, quote_form, resolve_form, claim_form, withdraw_form, transaction_of, on_form,
  handle_get_quote, handle_build_buy_tx, handle_build_sell_tx, handle_resolve_market,
  handle_build_claim_tx, handle_build_withdraw_tx, handle_build_deploy_tx, deploy_with, configured,
}
use total.Handler.Views.{
  describe, handle_list_markets, handle_oracle_admin, list_views, oracle_reply,
}
use total.Handler.Detail.{
  checked_balance, account_of, load_events, detailed, market_of, Balance, Events,
  handle_market_detail, handle_outcome_page, on_state, show_market, show_outcome, outcome_reply,
  path_outcome, market_reply, chart_of,
}
use total.Handler.Detail.Laws.{chart_of-some}
use total.Handler.Account.{
  handle_set_account, handle_api_quote, handle_mtl_wallet, quote_reply, wallet_reply,
  forward_wallet,
}
use total.Handler.Writer.Laws.{IsAnswer}
use total.Platform.{Platform}

form_cases : {A : Type 0} (x : Form A) → ((m : Bytes) × (x ≡ inl m)) ⊎ ((a : A) × (x ≡ inr a))
form_cases (inl m) = inl (m, refl)
form_cases (inr a) = inr (a, refl)

module _ (P : Platform) (W : Web P) where
  abbrev pub Answers : Reply P × State P → Type 0
  Answers x = IsAnswer P x.0

  finish-IsAnswer :
      {A : Type 0} (h : MarketHandler P W) (r : Request) (x : Result A × State P)
      (show : A → Page P)
      → Answers (finish P W h r x show)
  unfolding write_error
  finish-IsAnswer h r (ok a, s) show = tt
  finish-IsAnswer h r (err e, s) show = map_error_status e
  finish-IsAnswer h r (both a e, s) show = map_error_status e

  -- The handlers of forms: a refusal, or the end of a call.
  form-IsAnswer :
      {A B : Type 0} (h : MarketHandler P W) (r : Request) (x : Form A)
      (call : A → State P → Result B × State P) (show : B → Page P) (s : State P)
      → Answers (on_form P W x (λ a u. finish P W h r (call a u) show) s)
  form-IsAnswer h r (inl m) call show s = inl refl
  form-IsAnswer h r (inr a) call show s = finish-IsAnswer h r (call a s) show

  deploy_with-IsAnswer :
      (h : MarketHandler P W) (r : Request) (o : Option (FactoryService P)) (s : State P)
      → Answers (deploy_with P W h r o s)
  deploy_with-IsAnswer h r none s = ground arith
  deploy_with-IsAnswer h r (some m) s =
      form-IsAnswer h r (deploy_form P W r) (build_deploy_market_tx_for P m)
        (transaction_of P W h r (text "new") (common P W h r "oracle")) s

  list_views-IsAnswer :
      (h : MarketHandler P W) (r : Request) (o : Schedule) (m : FactoryService P)
      (x : Result (List Bytes) × State P)
      → Answers (list_views P W h r o m x)
  list_views-IsAnswer h r o m (ok ids, s) = tt
  list_views-IsAnswer h r o m (err e, s) = tt
  list_views-IsAnswer h r o m (both ids e, s) = tt

  pub handle_list_markets-IsAnswer :
      (o : Schedule) (h : MarketHandler P W) (r : Request) (s : State P)
      → Answers (handle_list_markets P W o h r s)
  unfolding handle_list_markets
  handle_list_markets-IsAnswer o h r s = elim (Option-cases (configured h.factory_service)) [
    | inl none_there ↦ rw (none_there, handle_list_markets) tt
    | inr (m, there) ↦
        rw (there, handle_list_markets) (list_views-IsAnswer h r o m (list_markets P m s))
  ]

  pub handle_oracle_admin-IsAnswer :
      (o : Schedule) (h : MarketHandler P W) (r : Request) (s : State P)
      → Answers (handle_oracle_admin P W o h r s)
  unfolding handle_oracle_admin oracle_reply
  handle_oracle_admin-IsAnswer o h r s = elim (Option-cases (configured h.factory_service)) [
    | inl none_there ↦ rw (none_there, handle_oracle_admin, oracle_reply) tt
    | inr (m, there) ↦ rw (there, handle_oracle_admin, oracle_reply) tt
  ]

  on_state-IsAnswer :
      (h : MarketHandler P W) (r : Request) (x : Result (List (MarketState P)) × State P)
      (k : MarketState P → State P → Reply P × State P)
      → ((st : MarketState P) (u : State P) → Answers (k st u))
      → Answers (on_state P W h r x k)
  unfolding write_error
  on_state-IsAnswer h r (err e, s) k good = map_error_status e
  on_state-IsAnswer h r (both states e, s) k good = map_error_status e
  on_state-IsAnswer h r (ok [], s) k good = ground arith
  on_state-IsAnswer h r (ok (st ∷ more), s) k good = good st s

  market_reply-IsAnswer :
      (h : MarketHandler P W) (r : Request) (market : Market P.floats) (balance : Balance P W)
      (events : Events P W) (o : Option Bytes) {chart : Bytes}
      → o ≡ some chart
      → IsAnswer P (market_reply P W h r market balance events o)
  market_reply-IsAnswer h r market balance events o e = rw e tt

  show_market-IsAnswer :
      (h : MarketHandler P W) (o : Schedule) (r : Request) (st : MarketState P) (s : State P)
      → SamplesForward P.floats
      → Answers (show_market P W h o r st s)
  unfolding show_market
  show_market-IsAnswer h o r st s forward =
      let (found, s1) = describe P W h st.metadata_hash s in
      let (balance, s2) = checked_balance P W h o r.path_id (account_of P W r) s1 in
      let (events, s3) = load_events P W h r.path_id s2 in
      market_reply-IsAnswer h r (detailed P W r.path_id st.metadata_hash (market_of P W st) found)
        balance events (chart_of P W events.0) (chart_of-some P W events.0 forward).1

  pub handle_market_detail-IsAnswer :
      (o : Schedule) (h : MarketHandler P W) (r : Request) (s : State P)
      → SamplesForward P.floats
      → Answers (handle_market_detail P W o h r s)
  unfolding handle_market_detail
  handle_market_detail-IsAnswer o h r s forward = elim (Bool-cases (is_empty r.path_id)) [
    | inl empty ↦ rw (empty, handle_market_detail) (inl refl)
    | inr full ↦ elim (Option-cases (configured h.factory_service)) [
      | inl none_there ↦ rw (full, none_there, handle_market_detail) (ground arith)
      | inr (m, there) ↦
          rw (full, there, handle_market_detail)
            (on_state-IsAnswer h r
              (get_market_states P m h.state_cache o.states_order (r.path_id ∷ []) s)
              (show_market P W h o r) λ st u. show_market-IsAnswer h o r st u forward)
    ]
  ]

  pub handle_outcome_page-IsAnswer :
      (o : Schedule) (h : MarketHandler P W) (r : Request) (s : State P)
      → Answers (handle_outcome_page P W o h r s)
  unfolding handle_outcome_page show_outcome outcome_reply
  handle_outcome_page-IsAnswer o h r s = elim (Bool-cases (is_empty r.path_id)) [
    | inl empty ↦ rw (empty, handle_outcome_page) (inl refl)
    | inr full ↦ elim (Option-cases (path_outcome P W r.path)) [
      | inl other ↦ rw (full, other, handle_outcome_page) (inl refl)
      | inr (outcome, named) ↦ elim (Option-cases (configured h.factory_service)) [
        | inl none_there ↦ rw (full, named, none_there, handle_outcome_page) (ground arith)
        | inr (m, there) ↦
            rw (full, named, there, handle_outcome_page)
              (on_state-IsAnswer h r
                (get_market_states P m h.state_cache o.states_order (r.path_id ∷ []) s)
                (show_outcome P W h o r outcome) λ st u. tt)
      ]
    ]
  ]

  pub handle_set_account-IsAnswer :
      (r : Request) (s : State P) → Answers (handle_set_account P W r s)
  unfolding handle_set_account
  handle_set_account-IsAnswer r s = ground arith

  quote_reply-IsAnswer : (x : Result (Quote P) × State P) → Answers (quote_reply P W x)
  quote_reply-IsAnswer (ok q, s) = tt
  quote_reply-IsAnswer (err e, s) = ground arith
  quote_reply-IsAnswer (both q e, s) = ground arith

  pub handle_api_quote-IsAnswer :
      (h : MarketHandler P W) (r : Request) (s : State P) → Answers (handle_api_quote P W h r s)
  unfolding handle_api_quote
  handle_api_quote-IsAnswer h r s = elim (Bool-cases (is_empty r.path_id)) [
    | inl empty ↦ rw (empty, handle_api_quote) (inl refl)
    | inr full ↦ elim (form_cases (require_outcome (r.form "outcome"))) [
      | inl (m, refused) ↦ rw (full, refused, handle_api_quote) (inl refl)
      | inr (outcome, named) ↦
          elim (form_cases (require_positive P "invalid amount" (r.form "amount"))) [
            | inl (m, refused) ↦ rw (full, named, refused, handle_api_quote) (inl refl)
            | inr (amount, number) ↦
                rw (full, named, number, handle_api_quote)
                  (quote_reply-IsAnswer (get_quote P h.market_service r.path_id outcome amount s))
          ]
    ]
  ]

  wallet_reply-IsAnswer : (x : WalletReply) → IsAnswer P (wallet_reply P W x)
  unfolding wallet_reply forward_wallet
  wallet_reply-IsAnswer (not_created e) = ground arith
  wallet_reply-IsAnswer (not_sent e) = ground arith
  wallet_reply-IsAnswer (not_read e) = ground arith
  wallet_reply-IsAnswer (replied status body) = ground arith

  pub handle_mtl_wallet-IsAnswer :
      (h : MarketHandler P W) (r : Request) (s : State P) → Answers (handle_mtl_wallet P W h r s)
  unfolding handle_mtl_wallet
  handle_mtl_wallet-IsAnswer h r s = elim (Option-cases (value? (W.marshal_uri (r.form "uri")))) [
    | inl bad ↦ ground (arith, bad)
    | inr (body, coded) ↦ ground (arith, coded, wallet_reply-IsAnswer _)
  ]

  pub handle_build_buy_tx-IsAnswer :
      (h : MarketHandler P W) (r : Request) (s : State P) → Answers (handle_build_buy_tx P W h r s)
  unfolding handle_build_buy_tx
  handle_build_buy_tx-IsAnswer h r s =
      form-IsAnswer h r (trade_form P r) (build_buy_tx_for P h.market_service)
        (transaction_of P W h r r.path_id (common P W h r "markets")) s

  pub handle_build_sell_tx-IsAnswer :
      (h : MarketHandler P W) (r : Request) (s : State P) → Answers (handle_build_sell_tx P W h r s)
  unfolding handle_build_sell_tx
  handle_build_sell_tx-IsAnswer h r s =
      form-IsAnswer h r (trade_form P r) (build_sell_tx_for P h.market_service)
        (transaction_of P W h r r.path_id (common P W h r "markets")) s

  pub handle_resolve_market-IsAnswer :
      (h : MarketHandler P W) (r : Request) (s : State P)
      → Answers (handle_resolve_market P W h r s)
  unfolding handle_resolve_market
  handle_resolve_market-IsAnswer h r s =
      form-IsAnswer h r (resolve_form P W h r) (build_resolve_tx_for P h.market_service)
        (transaction_of P W h r r.path_id (common P W h r "oracle")) s

  pub handle_build_claim_tx-IsAnswer :
      (h : MarketHandler P W) (r : Request) (s : State P)
      → Answers (handle_build_claim_tx P W h r s)
  unfolding handle_build_claim_tx
  handle_build_claim_tx-IsAnswer h r s =
      form-IsAnswer h r (claim_form P W r) (build_claim_tx_for P h.market_service)
        (transaction_of P W h r r.path_id (common P W h r "markets")) s

  pub handle_build_withdraw_tx-IsAnswer :
      (h : MarketHandler P W) (r : Request) (s : State P)
      → Answers (handle_build_withdraw_tx P W h r s)
  unfolding handle_build_withdraw_tx
  handle_build_withdraw_tx-IsAnswer h r s =
      form-IsAnswer h r (withdraw_form P W r) (build_withdraw_tx_for P h.market_service)
        (transaction_of P W h r r.path_id (common P W h r "oracle")) s

  pub handle_get_quote-IsAnswer :
      (h : MarketHandler P W) (r : Request) (s : State P) → Answers (handle_get_quote P W h r s)
  unfolding handle_get_quote
  handle_get_quote-IsAnswer h r s =
      form-IsAnswer h r (quote_form P W r)
        (λ (outcome, amount). get_quote P h.market_service r.path_id outcome amount)
        (λ quote. quote_page quote r.path_id (common P W h r "markets")) s

  pub handle_build_deploy_tx-IsAnswer :
      (h : MarketHandler P W) (r : Request) (s : State P)
      → Answers (handle_build_deploy_tx P W h r s)
  unfolding handle_build_deploy_tx
  handle_build_deploy_tx-IsAnswer h r s = deploy_with-IsAnswer h r (configured h.factory_service) s
