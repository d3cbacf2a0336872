-- ===== src/Service/Factory/Laws.antt =====
-- What the state of a market says of the market.
use total.Prelude.{
  ℕ, String, Bool, true, false, List, [], ◌∷◌, ◌≡◌, ◌⊎◌, inl, inr, refl, sym, ap, ◌∙◌, arith,
}
use mathlib.Core.Path.{subst}
use total.Bytes.{Bytes}
use total.Errors.{Result, ok, err, both, Action, during, lift}
use total.Errors.Laws.{>>=-eq-ok, during-eq-ok, pure-eq-ok}
use total.Soroban.Types.{u32_to_outcome}
use total.Soroban.ScVal.{ScVal, decode_i128, decode_bool, decode_u32}
use total.Soroban.Address.{decode_vec, decode_string}
use total.Soroban.Client.{State}
use total.Stellar.Queries.{
  build_get_state_tx, build_get_metadata_hash_tx, build_get_winning_outcome_tx,
}
use total.Stellar.Queries.Laws.{
  IsQuery, build_get_state_tx-IsQuery, build_get_metadata_hash_tx-IsQuery,
  build_get_winning_outcome_tx-IsQuery,
}
use total.Service.Reading.{read_contract}
use total.Service.Factory.{
  FactoryService, MarketState, fetch_market_state, RawState, decode_state, winning_outcome_of,
  lenient, or_empty, get_metadata_hash, get_winning_outcome, calculate_prices,
}
use total.Platform.{Platform}

module _ (P : Platform) where
  -- A value is what a function of a contract returned when it was asked, in some state of the world.
  pub record IsReadFrom (m : FactoryService P) (id : Bytes) (name : String) (value : ScVal)
      : Type 0 where
    pub before : State P
    pub between : State P
    pub after : State P
    pub xdr : Bytes
    pub label : String
    pub asked : IsQuery P m.tx_builder m.oracle_public_key id name xdr before between
    pub returned : read_contract P m.soroban_client label xdr between ≡ (ok value, after)

  -- The four elements of what `get_state` returns.
  pub record Holds (value : ScVal) (st : MarketState P) : Type 0 where
    pub elements : ScVal × (ScVal × (ScVal × ScVal))
    pub rest : List ScVal
    pub tuple :
        decode_vec value ≡ ok (elements.0 ∷ elements.1.0 ∷ elements.1.1.0 ∷ elements.1.1.1 ∷ rest)
    pub yes_sold : decode_i128 elements.0 ≡ ok st.yes_sold
    pub no_sold : decode_i128 elements.1.0 ≡ ok st.no_sold
    pub pool : decode_i128 elements.1.1.0 ≡ ok st.pool
    pub resolved : decode_bool elements.1.1.1 ≡ ok st.resolved

  -- A text is the outcome, or the metadata's hash, that a market reports.
  abbrev pub IsOutcome : FactoryService P → Bytes → Bytes → Type 0
  IsOutcome m id outcome =
      (value : ScVal) × (n : ℕ) × IsReadFrom m id "get_winning_outcome" value
      × (decode_u32 value ≡ ok n)
      × (u32_to_outcome n ≡ ok outcome)

  abbrev pub IsHash : FactoryService P → Bytes → Bytes → Type 0
  IsHash m id hash =
      (value : ScVal) × IsReadFrom m id "get_metadata_hash" value × (decode_string value ≡ ok hash)

  -- A state is that of a market: what its contract reports, and the prices that this gives.
  pub record IsOf (m : FactoryService P) (id : Bytes) (st : MarketState P) : Type 0 where
    pub contract : st.contract_id ≡ id
    pub value : ScVal
    pub read : IsReadFrom m id "get_state" value
    pub holds : Holds value st
    pub outcome :
        (st.winning_outcome ≡ []) ⊎ ((st.resolved ≡ true) × IsOutcome m id st.winning_outcome)
    pub hash : (st.metadata_hash ≡ []) ⊎ IsHash m id st.metadata_hash
    pub prices : (st.price_yes, st.price_no) ≡ calculate_prices P st.yes_sold st.no_sold

  or_empty-eq-ok :
      (x : Result Bytes × State P) {b : Bytes} {t : State P}
      → or_empty P x ≡ (ok b, t)
      → (b ≡ []) ⊎ (x ≡ (ok b, t))
  or_empty-eq-ok (ok c, s) e = inr e
  or_empty-eq-ok (err x, s) e = inl (ground (arith, e))
  or_empty-eq-ok (both c x, s) e = inl (ground (arith, e))

  get_metadata_hash-IsHash :
      (m : FactoryService P) (id : Bytes) (s : State P) {hash : Bytes} {t : State P}
      → get_metadata_hash P m id s ≡ (ok hash, t)
      → IsHash m id hash
  unfolding get_metadata_hash
  get_metadata_hash-IsHash m id s e =
      let build : Action (State P) Bytes =
        build_get_metadata_hash_tx P m.tx_builder
          (record { user_public_key = m.oracle_public_key; contract_id = id }) in
      let (xdr, s1, e1, r1) =
        >>=-eq-ok (during "failed to build get_metadata_hash tx: " build) _ s e in
      let (value, s2, e2, r2) = >>=-eq-ok (read_contract P m.soroban_client _ xdr) _ s1 r1 in
      let asked =
        build_get_metadata_hash_tx-IsQuery P m.tx_builder _ s (during-eq-ok _ build s e1) in
      let decoded = during-eq-ok _ (lift (decode_string value)) s2 r2 in
      (
        value,
        record {
          before = s;
          between = s1;
          after = s2;
          xdr = xdr;
          label = _;
          asked = asked;
          returned = e2;
        },
        ap (λ q. q.0) decoded,
      )

  get_winning_outcome-IsOutcome :
      (m : FactoryService P) (id : Bytes) (s : State P) {outcome : Bytes} {t : State P}
      → get_winning_outcome P m id s ≡ (ok outcome, t)
      → IsOutcome m id outcome
  unfolding get_winning_outcome
  get_winning_outcome-IsOutcome m id s e =
      let build : Action (State P) Bytes =
        build_get_winning_outcome_tx P m.tx_builder
          (record { user_public_key = m.oracle_public_key; contract_id = id }) in
      let (xdr, s1, e1, r1) =
        >>=-eq-ok (during "failed to build get_winning_outcome tx: " build) _ s e in
      let (value, s2, e2, r2) = >>=-eq-ok (read_contract P m.soroban_client _ xdr) _ s1 r1 in
      let (n, s3, e3, r3) = >>=-eq-ok (during _ (lift (decode_u32 value))) _ s2 r2 in
      let asked =
        build_get_winning_outcome_tx-IsQuery P m.tx_builder _ s (during-eq-ok _ build s e1) in
      let number = during-eq-ok _ (lift (decode_u32 value)) s2 e3 in
      let converted = during-eq-ok _ (lift (u32_to_outcome n)) s3 r3 in
      (
        value,
        n,
        record {
          before = s;
          between = s1;
          after = s2;
          xdr = xdr;
          label = _;
          asked = asked;
          returned = e2;
        },
        ap (λ q. q.0) number,
        ap (λ q. q.0) converted,
      )

  winning_outcome_of-IsOutcome :
      (m : FactoryService P) (id : Bytes) (resolved : Bool) (s : State P) {outcome : Bytes}
      {t : State P}
      → winning_outcome_of P m id resolved s ≡ (ok outcome, t)
      → (outcome ≡ []) ⊎ ((resolved ≡ true) × IsOutcome m id outcome)
  unfolding winning_outcome_of
  winning_outcome_of-IsOutcome m id false s e = inl (sym ((pure-eq-ok e).0))
  winning_outcome_of-IsOutcome m id true s e =
      elim (or_empty-eq-ok (get_winning_outcome P m id s) e) [
        | inl none_read ↦ inl none_read
        | inr there ↦ inr (refl, get_winning_outcome-IsOutcome m id s there)
      ]

  -- What the four elements of a tuple decode to.
  record IsRaw (tuple : List ScVal) (raw : RawState P) : Type 0 where
    elements : ScVal × (ScVal × (ScVal × ScVal))
    rest : List ScVal
    split : tuple ≡ elements.0 ∷ elements.1.0 ∷ elements.1.1.0 ∷ elements.1.1.1 ∷ rest
    yes_sold : decode_i128 elements.0 ≡ ok raw.yes_sold
    no_sold : decode_i128 elements.1.0 ≡ ok raw.no_sold
    pool : decode_i128 elements.1.1.0 ≡ ok raw.pool
    resolved : decode_bool elements.1.1.1 ≡ ok raw.resolved

  decode_state-IsRaw :
      (tuple : List ScVal) (s : State P) {raw : RawState P} {t : State P}
      → decode_state P tuple s ≡ (ok raw, t)
      → (IsRaw tuple raw) × (t ≡ s)
  unfolding decode_state
  decode_state-IsRaw [] s e = ground (arith, e)
  decode_state-IsRaw (a ∷ []) s e = ground (arith, e)
  decode_state-IsRaw (a ∷ b ∷ []) s e = ground (arith, e)
  decode_state-IsRaw (a ∷ b ∷ c ∷ []) s e = ground (arith, e)
  decode_state-IsRaw (a ∷ b ∷ c ∷ d ∷ rest) s e =
      let (yes_sold, s1, e1, r1) = >>=-eq-ok (during _ (lift (decode_i128 a))) _ s e in
      let (no_sold, s2, e2, r2) = >>=-eq-ok (during _ (lift (decode_i128 b))) _ s1 r1 in
      let (pool, s3, e3, r3) = >>=-eq-ok (during _ (lift (decode_i128 c))) _ s2 r2 in
      let (resolved, s4, e4, r4) = >>=-eq-ok (during _ (lift (decode_bool d))) _ s3 r3 in
      let d1 = during-eq-ok _ (lift (decode_i128 a)) s e1 in
      let d2 = during-eq-ok _ (lift (decode_i128 b)) s1 e2 in
      let d3 = during-eq-ok _ (lift (decode_i128 c)) s2 e3 in
      let d4 = during-eq-ok _ (lift (decode_bool d)) s3 e4 in
      let (made, kept) = pure-eq-ok r4 in
      (
        subst (IsRaw (a ∷ b ∷ c ∷ d ∷ rest)) made (record {
          elements = (a, (b, (c, d)));
          rest = rest;
          split = refl;
          yes_sold = ap (λ q. q.0) d1;
          no_sold = ap (λ q. q.0) d2;
          pool = ap (λ q. q.0) d3;
          resolved = ap (λ q. q.0) d4;
        }),
        sym (ap (λ q. q.1) d1 ∙ ap (λ q. q.1) d2 ∙ ap (λ q. q.1) d3 ∙ ap (λ q. q.1) d4 ∙ kept),
      )

  -- A state that is fetched for a market is that of this market: its quantities, its pool and whether
  -- it is resolved are what `get_state` of the market's own contract returned; its outcome is empty,
  -- or it is resolved and the contract's `get_winning_outcome` returned it; its hash is empty, or the
  -- contract's `get_metadata_hash` returned it; and its prices are those of its quantities.
  pub fetch_market_state-IsOf :
      (m : FactoryService P) (id : Bytes) (s : State P) {st : MarketState P} {t : State P}
      → fetch_market_state P m id s ≡ (ok st, t)
      → IsOf m id st
  unfolding fetch_market_state
  fetch_market_state-IsOf m id s e =
      let build : Action (State P) Bytes =
        build_get_state_tx P m.tx_builder
          (record { user_public_key = m.oracle_public_key; contract_id = id }) in
      let (xdr, s1, e1, r1) = >>=-eq-ok (during "failed to build get_state tx: " build) _ s e in
      let (value, s2, e2, r2) = >>=-eq-ok (read_contract P m.soroban_client _ xdr) _ s1 r1 in
      let (tuple, s3, e3, r3) = >>=-eq-ok (during _ (lift (decode_vec value))) _ s2 r2 in
      let (raw, s4, e4, r4) = >>=-eq-ok (decode_state P tuple) _ s3 r3 in
      let (outcome, s5, e5, r5) = >>=-eq-ok (winning_outcome_of P m id raw.resolved) _ s4 r4 in
      let (hash, s6, e6, r6) = >>=-eq-ok (lenient P (get_metadata_hash P m id)) _ s5 r5 in
      let (made, kept) = pure-eq-ok r6 in
      let asked = build_get_state_tx-IsQuery P m.tx_builder _ s (during-eq-ok _ build s e1) in
      let vec = ap (λ q. q.0) (during-eq-ok _ (lift (decode_vec value)) s2 e3) in
      let (held, _) = decode_state-IsRaw tuple s3 e4 in
      subst (IsOf m id) made (record {
        contract = refl;
        value = value;
        read = record {
          before = s;
          between = s1;
          after = s2;
          xdr = xdr;
          label = _;
          asked = asked;
          returned = e2;
        };
        holds = record {
          elements = held.elements;
          rest = held.rest;
          tuple = vec ∙ ap (λ xs. ok xs) held.split;
          yes_sold = held.yes_sold;
          no_sold = held.no_sold;
          pool = held.pool;
          resolved = held.resolved;
        };
        outcome = winning_outcome_of-IsOutcome m id raw.resolved s4 e5;
        hash = elim (or_empty-eq-ok (get_metadata_hash P m id s5) e6) [
          | inl none_read ↦ inl none_read
          | inr there ↦ inr (get_metadata_hash-IsHash m id s5 there)
        ];
        prices = refl;
      })
