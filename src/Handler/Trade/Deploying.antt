-- ===== src/Handler/Trade/Deploying.antt =====
-- internal/handler/market.go: what the page of a deployment says of the request that it answers.
use total.Prelude.{
  false, none, some, Option, inl, inr, [], ◌∷◌, ◌≡◌, ◌≢◌, ◌≤◌, ◌⊎◌, refl, sym, ap, ◌∙◌, arith,
  Option-cases, Bool-cases, All, length,
}
use total.Bytes.{Bytes, text, is_empty, trim_space}
use total.Errors.{ok, value?}
use total.Model.{TransactionResult, zero_float}
use total.Soroban.Client.{State}
use total.Service.Factory.{FactoryService}
use total.Service.Deploy.{
  DeployMarketRequest, validate_deploy, min_funding, build_deploy_market_tx_for,
}
use total.Service.Deploy.Laws.{validate_deploy_exact, build_deploy_market_tx_for-refused}
use total.Ipfs.Cid.{validate_cid, validate_cid_safe, IsAlphanumeric}
use total.Handler.Web.{Request, Web, MarketHandler, common, page, Page}
use total.Handler.Forms.{require_form, require_positive}
use total.Handler.Trade.{
  configured, require_hash, deploy_form, deploy_with, handle_build_deploy_tx, transaction_of,
}
use total.Handler.Trade.Laws.{
  then_form-ensures, inr-ensures, require_positive-eq-inr, finish-eq-page, on_form-eq-page,
}
use total.Platform.{Platform}

configured-eq-some :
    {P : Platform} (o : Option (FactoryService P)) (m : FactoryService P)
    → configured o ≡ some m
    → (o ≡ some m) × (is_empty m.factory_contract ≡ false)
unfolding configured
configured-eq-some none m e = ground arith
configured-eq-some (some n) m e = elim (Bool-cases (is_empty n.factory_contract)) [
  | inl empty ↦ absurd (ground (arith, e, empty))
  | inr full ↦ ground (arith, e, full)
]

not_empty : (b : Bytes) → is_empty b ≡ false → b ≢ []
not_empty [] e h = absurd (ground (arith, e))
not_empty (c ∷ cs) e h = absurd (ground (arith, h))

module _ (P : Platform) (W : Web P) where
  open P use {floats}

  require_hash-eq-inr :
      (hash : Bytes) {k : Bytes}
      → require_hash P W hash ≡ inr k
      → (hash ≡ k) × (validate_cid hash ≡ none)
  unfolding require_hash
  require_hash-eq-inr hash e = ground arith

  -- What a deployment's form holds, one by one, where it is accepted.
  pub record IsDeployForm (r : Request) (q : DeployMarketRequest P) : Type 0 where
    pub hash : q.metadata_hash ≡ trim_space (r.form "metadata_hash")
    pub hash_valid : validate_cid q.metadata_hash ≡ none
    pub liquidity : value? (floats.parse (r.form "liquidity_param")) ≡ some q.liquidity_param
    pub funding : value? (floats.parse (r.form "initial_funding")) ≡ some q.initial_funding
    pub funding_positive : floats.le q.initial_funding (zero_float floats) ≡ false

  deploy_form-IsDeployForm :
      (r : Request) (q : DeployMarketRequest P) → deploy_form P W r ≡ inr q → IsDeployForm r q
  unfolding deploy_form
  deploy_form-IsDeployForm r = then_form-ensures (IsDeployForm r) (require_form r) _ λ _ _.
      then_form-ensures (IsDeployForm r) (require_hash P W (trim_space (r.form "metadata_hash"))) _
        λ hash at_hash.
          then_form-ensures (IsDeployForm r)
            (require_positive P "Invalid liquidity parameter" (r.form "liquidity_param")) _
            λ liquidity at_liquidity.
              then_form-ensures (IsDeployForm r)
                (require_positive P "Invalid initial funding" (r.form "initial_funding")) _
                λ funding at_funding.
                  let (same, valid) = require_hash-eq-inr _ at_hash in
                  let (number, _) = require_positive-eq-inr P _ _ at_liquidity in
                  let (number', positive) = require_positive-eq-inr P _ _ at_funding in
                  inr-ensures (IsDeployForm r) _ (record {
                    hash = sym same;
                    hash_valid = ap validate_cid (sym same) ∙ valid;
                    liquidity = number;
                    funding = number';
                    funding_positive = positive;
                  })

  -- What was checked of a deployment before its transaction is shown.
  pub record IsDeployment (h : MarketHandler P W) (r : Request) (q : DeployMarketRequest P)
      : Type 0 where
    pub formed : IsDeployForm r q
    pub hash_safe : All IsAlphanumeric q.metadata_hash
    pub hash_length :
        (length q.metadata_hash ≡ 46)
        ⊎ ((59 ≤ length q.metadata_hash) × (length q.metadata_hash ≤ 100))
    pub liquidity_positive : floats.le q.liquidity_param (zero_float floats) ≡ false
    pub funded : floats.lt q.initial_funding (min_funding P q) ≡ false

  validated :
      (m : FactoryService P) (q : DeployMarketRequest P) (s t : State P)
      {result : TransactionResult}
      → m.factory_contract ≢ []
      → build_deploy_market_tx_for P m q s ≡ (ok result, t)
      → validate_deploy P q ≡ none
  validated m q s t there e = elim (Option-cases (validate_deploy P q)) [
    | inl fine ↦ fine
    | inr (x, bad) ↦
        absurd (ground (arith, e, (build_deploy_market_tx_for-refused P m q s).1 x there bad))
  ]

  -- The end of a deployment that is answered with a page.
  abbrev pub IsDeployed :
      MarketHandler P W → Request → Option (FactoryService P) → State P → Page P → State P → Type 0
  IsDeployed h r o s p t =
      (m : FactoryService P) × (q : DeployMarketRequest P) × (result : TransactionResult) × (o
        ≡ some m)
      × IsDeployment h r q
      × (build_deploy_market_tx_for P m q s ≡ (ok result, t))
      × (transaction_of P W h r (text "new") (common P W h r "oracle") result ≡ p)

  deploy_with-IsDeployed :
      (h : MarketHandler P W) (r : Request) (o : Option (FactoryService P)) (s : State P)
      {p : Page P} {t : State P}
      → ((m : FactoryService P) → o ≡ some m → is_empty m.factory_contract ≡ false)
      → deploy_with P W h r o s ≡ (page p, t)
      → IsDeployed h r o s p t
  deploy_with-IsDeployed h r none s full e = absurd (ground (arith, e))
  deploy_with-IsDeployed h r (some m) s full e =
      let (q, formed, answered) = on_form-eq-page P W (deploy_form P W r) _ s e in
      let (result, built, shown) =
        finish-eq-page P W h r (build_deploy_market_tx_for P m q s) _ answered in
      let checked = deploy_form-IsDeployForm r q formed in
      let (safe, long) = validate_cid_safe q.metadata_hash checked.hash_valid in
      let (liquid, _, funded) =
        (validate_deploy_exact P q).0
          (validated m q s _ (not_empty m.factory_contract (full m refl)) built) in
      (
        m,
        q,
        result,
        refl,
        record {
          formed = checked;
          hash_safe = safe;
          hash_length = long;
          liquidity_positive = liquid;
          funded = funded;
        },
        built,
        shown,
      )

  -- Where `handle_build_deploy_tx` answers with a page, there is a factory contract, the page is that
  -- of the transaction that the factory service builds of the form, and what it deploys was checked:
  -- the metadata hash is a content identifier of ASCII letters and digits, 46 bytes or 59 to 100 long,
  -- the liquidity parameter is not at most 0, and the funding is not below 70% of it.
  pub handle_build_deploy_tx-IsDeployment :
      (h : MarketHandler P W) (r : Request) (s : State P) {p : Page P} {t : State P}
      → handle_build_deploy_tx P W h r s ≡ (page p, t)
      → IsDeployed h r h.factory_service s p t
  unfolding handle_build_deploy_tx
  handle_build_deploy_tx-IsDeployment h r s e =
      let found = configured-eq-some h.factory_service in
      let (m, q, result, at, checked, built, shown) =
        deploy_with-IsDeployed h r (configured h.factory_service) s (λ m at. (found m at).1) e in
      (m, q, result, (found m at).0, checked, built, shown)
