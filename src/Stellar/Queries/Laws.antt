-- ===== src/Stellar/Queries/Laws.antt =====
-- What the transactions that read a market ask, and of which contract.
use total.Prelude.{String, some, [], ◌≡◌, sym, ap, ◌∙◌}
use total.Bytes.{Bytes, text}
use total.Errors.{ok, Action, ◌>>=◌, during}
use total.Errors.Laws.{>>=-eq-ok, during-eq-ok}
use total.Soroban.Client.{State}
use total.Soroban.Invoker.{ContractInvoker, InvokeParams, build_invoke_tx}
use total.Stellar.Horizon.{get_account}
use total.Stellar.Params.{GetStateTxParams, GetMetadataHashTxParams, GetWinningOutcomeTxParams}
use total.Stellar.Builder.{Builder, require_invoker}
use total.Stellar.Builder.Laws.{IsCall, build_invoke_tx-IsCall, require_invoker-eq-ok}
use total.Stellar.Queries.{
  build_get_state_tx, build_get_metadata_hash_tx, build_get_winning_outcome_tx,
}
use total.Platform.{Platform}

module _ (P : Platform) where
  abbrev query : Bytes → String → P.Account → InvokeParams P
  query id name source = record {
    source_account = source;
    contract_id = id;
    function_name = text name;
    args = [];
    auth = [];
  }

  -- A transaction is the call, without arguments, of a function of a contract, by an account that
  -- Horizon knows.
  pub record IsQuery (b : Builder) (key id : Bytes) (name : String) (xdr : Bytes) (s t : State P)
      : Type 0 where
    pub invoker : ContractInvoker
    pub source : P.Account
    pub has_invoker : b.contract_invoker ≡ some invoker
    pub loaded : get_account P b.client key s ≡ (ok source, t)
    pub call : IsCall P invoker (query id name source) xdr

  ask : Builder → Bytes → Bytes → String → Action (State P) Bytes
  ask b key id name = do
    ci ← require_invoker P b
    source ← during "failed to get user account: " (get_account P b.client key)
    build_invoke_tx P ci (query id name source)

  ask-IsQuery :
      (b : Builder) (key id : Bytes) (name : String) (s : State P) {xdr : Bytes} {t : State P}
      → ask b key id name s ≡ (ok xdr, t)
      → IsQuery b key id name xdr s t
  unfolding ask
  ask-IsQuery b key id name s e =
      let (ci, t1, e1, r1) = >>=-eq-ok (require_invoker P b) _ s e in
      let (source, t2, e2, r2) = >>=-eq-ok (during _ (get_account P b.client key)) _ t1 r1 in
      let (found, kept) = require_invoker-eq-ok P b s e1 in
      let d2 = during-eq-ok _ (get_account P b.client key) t1 e2 in
      let (call, same) = build_invoke_tx-IsCall P ci (query id name source) t2 r2 in
      record {
        invoker = ci;
        source = source;
        has_invoker = found;
        loaded =
            ap (get_account P b.client key) (sym kept) ∙ d2 ∙ ap (λ u. (ok source, u)) (sym same);
        call = call;
      }

  pub build_get_state_tx-IsQuery :
      (b : Builder) (p : GetStateTxParams) (s : State P) {xdr : Bytes} {t : State P}
      → build_get_state_tx P b p s ≡ (ok xdr, t)
      → IsQuery b p.user_public_key p.contract_id "get_state" xdr s t
  unfolding build_get_state_tx ask
  build_get_state_tx-IsQuery b p s = ask-IsQuery b p.user_public_key p.contract_id "get_state" s

  pub build_get_metadata_hash_tx-IsQuery :
      (b : Builder) (p : GetMetadataHashTxParams) (s : State P) {xdr : Bytes} {t : State P}
      → build_get_metadata_hash_tx P b p s ≡ (ok xdr, t)
      → IsQuery b p.user_public_key p.contract_id "get_metadata_hash" xdr s t
  unfolding build_get_metadata_hash_tx ask
  build_get_metadata_hash_tx-IsQuery b p s =
      ask-IsQuery b p.user_public_key p.contract_id "get_metadata_hash" s

  pub build_get_winning_outcome_tx-IsQuery :
      (b : Builder) (p : GetWinningOutcomeTxParams) (s : State P) {xdr : Bytes} {t : State P}
      → build_get_winning_outcome_tx P b p s ≡ (ok xdr, t)
      → IsQuery b p.user_public_key p.contract_id "get_winning_outcome" xdr s t
  unfolding build_get_winning_outcome_tx ask
  build_get_winning_outcome_tx-IsQuery b p s =
      ask-IsQuery b p.user_public_key p.contract_id "get_winning_outcome" s
