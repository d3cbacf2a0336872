-- ===== src/Handler/Trade/Laws.antt =====
-- internal/handler/market.go: what the page of a transaction says of the request that it answers.
use total.Prelude.{String, true, false, none, some, inl, inr, ◌≡◌, ◌⊎◌, refl, sym, ap, ◌∙◌, arith}
use total.Prelude.Int.{pos}
use total.Bytes.{Bytes, is_empty, trim_space}
use total.Errors.{Result, ok, err, both, value?}
use total.Model.{Outcome, TransactionResult, parse_outcome, zero_float}
use total.Soroban.Client.{State}
use total.Service.Requests.{TradeRequest, max_slippage}
use total.Service.Quotes.{get_quote, get_sell_quote}
use total.Service.Market.{build_buy_tx_for, build_sell_tx_for}
use total.Service.Market.Laws.{
  IsTrade, IsBuyCall, IsSellCall, build_buy_tx_for-IsTrade, build_sell_tx_for-IsTrade,
}
use total.Handler.Web.{
  Request, Web, MarketHandler, Common, common, Reply, page, Page, transaction_page, finish,
}
use total.Handler.Forms.{
  Form, then_form, require_form, require_address, require_outcome, outcome_of, require_positive,
  require_slippage, default_slippage, trade_form,
}
use total.Handler.Trade.{on_form, transaction_of, handle_build_buy_tx, handle_build_sell_tx}
use total.Platform.{Platform}

-- What the rest of a form ensures of its value, the form ensures.
pub then_form-ensures :
    {A B : Type 0} (Q : B → Type 0) (x : Form A) (f : A → Form B)
    → ((a : A) → x ≡ inr a → (b : B) → f a ≡ inr b → Q b)
    → (b : B) → then_form x f ≡ inr b
    → Q b
then_form-ensures Q (inl m) f h b e = absurd (ground arith)
then_form-ensures Q (inr a) f h b e = h a refl b e

pub inr-ensures :
    {A : Type 0} (Q : A → Type 0) (a : A) → Q a → (b : A) → ◌≡◌ {A = Form A} (inr a) (inr b) → Q b
inr-ensures Q a q b e = let same : a ≡ b = ground (arith, e) in rw (sym same) q

pub outcome_of-eq-inr : (x : Result Outcome) {o : Outcome} → outcome_of x ≡ inr o → x ≡ ok o
outcome_of-eq-inr (ok o) e = ground arith
outcome_of-eq-inr (err x) e = ground arith
outcome_of-eq-inr (both o x) e = ground arith

module _ (P : Platform) where
  open P use {floats}

  -- What a trade's form holds, one by one, where it is accepted.
  pub record IsTradeForm (r : Request) (q : TradeRequest P) : Type 0 where
    pub key : q.user_public_key ≡ trim_space (r.form "user_public_key")
    pub key_parsed : P.parse_address q.user_public_key ≡ none
    pub contract : q.contract_id ≡ r.path_id
    pub outcome : parse_outcome (r.form "outcome") ≡ ok q.outcome
    pub amount : value? (floats.parse (r.form "amount")) ≡ some q.share_amount
    pub amount_positive : floats.le q.share_amount (zero_float floats) ≡ false
    pub slippage :
        ((is_empty (r.form "slippage") ≡ true) × (q.slippage ≡ floats.constant 1 2))
        ⊎ ((value? (floats.parse (r.form "slippage")) ≡ some q.slippage)
            × (floats.le q.slippage (zero_float floats) ≡ false)
            × (floats.lt (floats.constant 10 2) q.slippage ≡ false))

  pub require_address-eq-inr :
      (key : Bytes) {k : Bytes}
      → require_address P key ≡ inr k
      → (key ≡ k) × (P.parse_address key ≡ none)
  unfolding require_address
  require_address-eq-inr key e = ground arith

  pub require_positive-eq-inr :
      (message : String) (s : Bytes) {f : floats.Float}
      → require_positive P message s ≡ inr f
      → (value? (floats.parse s) ≡ some f) × (floats.le f (zero_float floats) ≡ false)
  unfolding require_positive
  require_positive-eq-inr message s e = ground arith

  require_slippage-eq-inr :
      (s : Bytes) {f : floats.Float}
      → require_slippage P s ≡ inr f
      → ((is_empty s ≡ true) × (f ≡ default_slippage P))
        ⊎ ((value? (floats.parse s) ≡ some f)
            × (floats.le f (zero_float floats) ≡ false)
            × (floats.lt (max_slippage floats) f ≡ false))
  unfolding require_slippage
  require_slippage-eq-inr s e = ground arith

  trade_form-IsTradeForm :
      (r : Request) (q : TradeRequest P) → trade_form P r ≡ inr q → IsTradeForm r q
  unfolding trade_form require_outcome
  trade_form-IsTradeForm r = then_form-ensures (IsTradeForm r) (require_form r) _ λ _ _.
      then_form-ensures (IsTradeForm r) (require_address P _) _ λ key at_key.
        then_form-ensures (IsTradeForm r) (outcome_of (parse_outcome (r.form "outcome"))) _
          λ outcome at_outcome.
            then_form-ensures (IsTradeForm r)
              (require_positive P "Invalid amount" (r.form "amount")) _
              λ amount at_amount.
                then_form-ensures (IsTradeForm r) (require_slippage P (r.form "slippage")) _
                  λ slippage at_slippage.
                    let (same, parsed) = require_address-eq-inr _ at_key in
                    let (number, positive) = require_positive-eq-inr _ _ at_amount in
                    inr-ensures (IsTradeForm r) _ (record {
                      key = sym same;
                      key_parsed = ap P.parse_address (sym same) ∙ parsed;
                      contract = refl;
                      outcome = outcome_of-eq-inr _ at_outcome;
                      amount = number;
                      amount_positive = positive;
                      slippage = require_slippage-eq-inr _ at_slippage;
                    })

module _ (P : Platform) (W : Web P) where
  open P use {floats}

  pub finish-eq-page :
      {A : Type 0} (h : MarketHandler P W) (r : Request) (x : Result A × State P)
      (show : A → Page P) {p : Page P} {t : State P}
      → finish P W h r x show ≡ (page p, t)
      → (a : A) × (x ≡ (ok a, t)) × (show a ≡ p)
  unfolding total.Handler.Web.write_error
  finish-eq-page h r (ok a, s) show e = (a, ground arith, ground arith)
  finish-eq-page h r (err x, s) show e = ground arith
  finish-eq-page h r (both a x, s) show e = ground arith

  pub on_form-eq-page :
      {A : Type 0} (x : Form A) (k : A → State P → Reply P × State P) (s : State P) {p : Page P}
      {t : State P}
      → on_form P W x k s ≡ (page p, t)
      → (a : A) × (x ≡ inr a) × (k a s ≡ (page p, t))
  on_form-eq-page (inl m) k s e = ground arith
  on_form-eq-page (inr a) k s e = (a, refl, e)

  -- Where `handle_build_buy_tx` answers with a page, the page is that of a transaction of the market
  -- in the path, on the handler's network, for a form that was accepted: the key, the outcome, the
  -- amount and the slippage are those of the form, the key is an address, the amount is not at most
  -- 0, and the slippage is 1% where the form names none, or is neither at most 0 nor above 10%. The
  -- transaction is the call of `buy` that the service builds of this request: of the integral part of
  -- the amount times 10⁷, with that of the quoted cost times 1 plus the slippage as its limit, to be
  -- signed with the form's key.
  pub handle_build_buy_tx-IsTrade :
      (h : MarketHandler P W) (r : Request) (s : State P) {p : Page P} {t : State P}
      → handle_build_buy_tx P W h r s ≡ (page p, t)
      → (q : TradeRequest P) × (result : TransactionResult) × IsTradeForm P r q
        × (transaction_of P W h r r.path_id (common P W h r "markets") result ≡ p)
        × IsTrade P h.market_service q
            (get_quote P h.market_service q.contract_id q.outcome q.share_amount)
            (λ quote. quote.cost)
            (λ a. floats.mul a (floats.add (floats.of_int (pos 1)) q.slippage))
            (IsBuyCall P h.market_service q)
            s
            result
            t
  unfolding handle_build_buy_tx
  handle_build_buy_tx-IsTrade h r s e =
      let (q, formed, answered) = on_form-eq-page (trade_form P r) _ s e in
      let (result, built, shown) =
        finish-eq-page h r (build_buy_tx_for P h.market_service q s) _ answered in
      (
        q,
        result,
        trade_form-IsTradeForm P r q formed,
        shown,
        build_buy_tx_for-IsTrade P h.market_service q s built,
      )

  -- Where `handle_build_sell_tx` answers with a page, the page is that of a transaction of the market
  -- in the path, on the handler's network, for a form that was accepted, as for a purchase. The
  -- transaction is the call of `sell` that the service builds of this request: of the integral part
  -- of the amount times 10⁷, with that of the quoted return times 1 less the slippage as its limit, to
  -- be signed with the form's key.
  pub handle_build_sell_tx-IsTrade :
      (h : MarketHandler P W) (r : Request) (s : State P) {p : Page P} {t : State P}
      → handle_build_sell_tx P W h r s ≡ (page p, t)
      → (q : TradeRequest P) × (result : TransactionResult) × IsTradeForm P r q
        × (transaction_of P W h r r.path_id (common P W h r "markets") result ≡ p)
        × IsTrade P h.market_service q
            (get_sell_quote P h.market_service q.contract_id q.outcome q.share_amount)
            (λ quote. quote.return_amount)
            (λ a. floats.mul a (floats.sub (floats.of_int (pos 1)) q.slippage))
            (IsSellCall P h.market_service q)
            s
            result
            t
  unfolding handle_build_sell_tx
  handle_build_sell_tx-IsTrade h r s e =
      let (q, formed, answered) = on_form-eq-page (trade_form P r) _ s e in
      let (result, built, shown) =
        finish-eq-page h r (build_sell_tx_for P h.market_service q s) _ answered in
      (
        q,
        result,
        trade_form-IsTradeForm P r q formed,
        shown,
        build_sell_tx_for-IsTrade P h.market_service q s built,
      )
