-- ===== src/Service/States/Laws.antt =====
-- Whatever order the goroutines run in, a state stands where its market does.
use total.Prelude.{
  ℕ, zero, suc, Option, none, some, List, [], ◌∷◌, length, get_elem?, replicate, map, Bool-cases,
  Option-cases, ◌≡◌, refl, sym, ◌∙◌, inl, inr, arith,
}
use total.Bytes.{Bytes, is_empty}
use total.Errors.{Result, ok, err, both}
use total.Soroban.Client.{State}
use total.Service.Factory.{FactoryService, MarketState}
use total.Service.Factory.Laws.{fetch_market_state-IsOf}
use total.Service.States.{
  set_at, StateCache, Shared, get_cached, after_fetch, run_one, run_index, run_all, valid_states,
  conclude_states, get_market_states,
}
use total.Platform.{Platform}

-- One list is the other with some elements left out.
pub data Sublist {ℓ} {A : Type ℓ} : List A → List A → Type ℓ where
  none_left : Sublist [] []
  left_out : {x : A} {xs ys : List A} → Sublist xs ys → Sublist xs (x ∷ ys)
  kept : {x : A} {xs ys : List A} → Sublist xs ys → Sublist (x ∷ xs) (x ∷ ys)

module _ (P : Platform) where
  abbrev HasId : Bytes → Option (MarketState P) → Type 0
  HasId id none = Unit
  HasId id (some st) = st.contract_id ≡ id

  -- Each state is that of the market at its place.
  abbrev Matches : List Bytes → List (Option (MarketState P)) → Type 0
  Matches [] [] = Unit
  Matches [] (o ∷ os) = ⊥
  Matches (id ∷ ids) [] = ⊥
  Matches (id ∷ ids) (o ∷ os) = HasId id o × Matches ids os

  Matches-replicate : (ids : List Bytes) → Matches ids (replicate (length ids) none)
  Matches-replicate [] = tt
  Matches-replicate (id ∷ ids) = (tt, Matches-replicate ids)

  Matches-set_at :
      (ids : List Bytes) (os : List (Option (MarketState P))) (i : ℕ) (id : Bytes)
      (st : MarketState P)
      → Matches ids os
      → get_elem? ids i ≡ some id
      → st.contract_id ≡ id
      → Matches ids (set_at i (some st) os)
  unfolding set_at
  Matches-set_at [] [] i id st h e same = tt
  Matches-set_at [] (o ∷ os) i id st h e same = elim h [ ]
  Matches-set_at (x ∷ ids) [] i id st h e same = elim h [ ]
  Matches-set_at (x ∷ ids) (o ∷ os) zero id st (h, hs) e same = (same ∙ sym (some_injective e), hs)
    where
      some_injective : some x ≡ some id → x ≡ id
      some_injective d = cc
  Matches-set_at (x ∷ ids) (o ∷ os) (suc i) id st (h, hs) e same =
      (h, Matches-set_at ids os i id st hs e same)

  valid_states-Sublist :
      (ids : List Bytes) (os : List (Option (MarketState P)))
      → Matches ids os
      → Sublist (map (λ st. st.contract_id) (valid_states P os)) ids
  unfolding valid_states
  valid_states-Sublist [] [] h = none_left
  valid_states-Sublist [] (o ∷ os) h = elim h [ ]
  valid_states-Sublist (id ∷ ids) [] h = elim h [ ]
  valid_states-Sublist (id ∷ ids) (none ∷ os) (h, hs) = left_out (valid_states-Sublist ids os hs)
  valid_states-Sublist (id ∷ ids) (some st ∷ os) (h, hs) =
      elim (Bool-cases (is_empty st.contract_id)) [
        | inl blank ↦ rw blank (left_out (valid_states-Sublist ids os hs))
        | inr there ↦ rw (there, h) (kept (valid_states-Sublist ids os hs))
      ]

  -- A cache that yields for a market only states of that market.
  unfoldable pub IsSound : StateCache P → Type 0
  IsSound cache =
      (id : Bytes) (w : P.World) (st : MarketState P)
      → (cache.look_up id w).0.0 ≡ some st
      → st.contract_id ≡ id

  get_cached-IsSound :
      (cache : StateCache P) (id : Bytes) (s : State P) (st : MarketState P)
      → IsSound cache
      → (get_cached P cache id s).0 ≡ some st
      → st.contract_id ≡ id
  unfolding get_cached IsSound
  get_cached-IsSound cache id s st sound e = elim (Option-cases (cache.look_up id s.world).0.1) [
    | inl fine ↦ sound id s.world st (rw (fine, get_cached) at e)
    | inr (x, bad) ↦ absurd (none_ne_some (rw (bad, get_cached) at e))
  ]
    where
      none_ne_some : none ≡ some st → ⊥
      none_ne_some d = cc

  after_fetch-Matches :
      (cache : StateCache P) (ids : List Bytes) (i : ℕ) (id : Bytes) (shared : Shared P)
      (r : Result (MarketState P) × State P)
      → Matches ids shared.states
      → get_elem? ids i ≡ some id
      → ((st : MarketState P) (t : State P) → r ≡ (ok st, t) → st.contract_id ≡ id)
      → Matches ids (after_fetch P cache i id shared r).0.states
  after_fetch-Matches cache ids i id shared (ok st, s) h e of_id =
      Matches-set_at ids shared.states i id st h e (of_id st s refl)
  after_fetch-Matches cache ids i id shared (err x, s) h e of_id = h
  after_fetch-Matches cache ids i id shared (both st x, s) h e of_id = h

  run_one-Matches :
      (m : FactoryService P) (cache : StateCache P) (ids : List Bytes) (i : ℕ) (id : Bytes)
      (shared : Shared P) (s : State P)
      → IsSound cache
      → Matches ids shared.states
      → get_elem? ids i ≡ some id
      → Matches ids (run_one P m cache i id (shared, s)).0.states
  unfolding run_one
  run_one-Matches m cache ids i id shared s sound h e =
      elim (Option-cases (get_cached P cache id s).0) [
        | inl missed ↦
            rw (missed, run_one)
              (after_fetch-Matches cache ids i id shared _ h e
                λ st t fetched. (fetch_market_state-IsOf P m id _ fetched).contract)
        | inr (st, found) ↦
            rw (found, run_one)
              (Matches-set_at ids shared.states i id st h e
                (get_cached-IsSound cache id s st sound found))
      ]

  run_index-Matches :
      (m : FactoryService P) (cache : StateCache P) (ids : List Bytes) (i : ℕ) (o : Option Bytes)
      (now : Shared P × State P)
      → IsSound cache
      → Matches ids now.0.states
      → get_elem? ids i ≡ o
      → Matches ids (run_index P m cache i o now).0.states
  run_index-Matches m cache ids i none now sound h e = h
  run_index-Matches m cache ids i (some id) (shared, s) sound h e =
      run_one-Matches m cache ids i id shared s sound h e

  run_all-Matches :
      (m : FactoryService P) (cache : StateCache P) (ids : List Bytes) (order : List ℕ)
      (now : Shared P × State P)
      → IsSound cache
      → Matches ids now.0.states
      → Matches ids (run_all P m cache ids order now).0.states
  unfolding run_all
  run_all-Matches m cache ids [] now sound h = h
  run_all-Matches m cache ids (i ∷ order) now sound h =
      run_all-Matches m cache ids order _ sound
        (run_index-Matches m cache ids i (get_elem? ids i) now sound h refl)

  conclude_states-ok :
      (ids : List Bytes) (shared : Shared P) (l : List (MarketState P))
      → conclude_states P ids shared ≡ ok l
      → l ≡ valid_states P shared.states
  unfolding conclude_states
  conclude_states-ok ids shared l e = elim (Option-cases shared.first_err) [
    | inl clean ↦ ground (arith, clean)
    | inr (x, bad) ↦ ground (arith, bad)
  ]

  -- Where the cache yields for a market only states of that market, the markets of the states that
  -- are returned are those that were asked for, in that order and with some left out at most,
  -- whatever the order in which the goroutines ran.
  pub get_market_states-Sublist :
      (m : FactoryService P) (cache : StateCache P) (order : List ℕ) (ids : List Bytes)
      (s : State P) (l : List (MarketState P))
      → IsSound cache
      → (get_market_states P m cache order ids s).0 ≡ ok l
      → Sublist (map (λ st. st.contract_id) l) ids
  unfolding get_market_states
  get_market_states-Sublist m cache order ids s l sound e =
      let start : Shared P = record { states = replicate (length ids) none; first_err = none } in
      let matched = run_all-Matches m cache ids order (start, s) sound (Matches-replicate ids) in
      let made = conclude_states-ok ids (run_all P m cache ids order (start, s)).0 l e in
      rw made (valid_states-Sublist ids _ matched)
