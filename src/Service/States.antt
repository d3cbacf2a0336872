-- ===== src/Service/States.antt =====
-- internal/service/factory.go: `GetMarketStates`, and the reading of internal/service/cache.go. The
-- goroutines take their turns one after the other, in any order.
pub mod Laws
use total.Prelude.{
  ℕ, zero, suc, Bool, true, false, Option, none, some, List, [], ◌∷◌, ◌++◌, length, get_elem?, not,
  ◌&&◌, ◌==◌, replicate, if◌then◌else◌,
}
use total.Bytes.{Bytes, text, is_empty}
use total.Errors.{Error, Result, ok, err, both, wrap, wrapped}
use total.Soroban.Client.{State}
use total.Service.Events.{Cache}
use total.Service.Factory.{FactoryService, MarketState, fetch_market_state}
use total.Platform.{Platform}

-- `states[i] = v`
unfoldable pub set_at {ℓ} : {A : Type ℓ} → ℕ → A → List A → List A
set_at i v [] = []
set_at zero v (x ∷ xs) = v ∷ xs
set_at (suc i) v (x ∷ xs) = x ∷ set_at i v xs

module _ (P : Platform) where
  abbrev pub StateCache : Type 0
  StateCache = Cache P.World (MarketState P)

  -- `StateCache.Get`: an error is a miss.
  unfoldable pub get_cached : StateCache → Bytes → State P → Option (MarketState P) × State P
  get_cached cache id s =
      let (found, w) = cache.look_up id s.world in
      elim found.1 [
        | none ↦ (found.0, record s { world = w })
        | some e ↦ (none, record s { world = w })
      ]

  -- What the goroutines share: the states, where none is the empty one, and the first error.
  pub record Shared : Type 0 where
    pub states : List (Option (MarketState P))
    pub first_err : Option Error

  abbrev pub keep_first : Option Error → Error → Option Error
  keep_first none e = some e
  keep_first (some first) e = some first

  abbrev pub put : ℕ → MarketState P → Shared → Shared
  put i st shared = record shared { states = set_at i (some st) shared.states }

  abbrev pub note_error : Bytes → Error → Shared → Shared
  note_error id e shared = record shared {
    first_err =
        keep_first shared.first_err
          (wrap (text "failed to get state for " ++ (id ++ text ": ")) e []);
  }

  abbrev pub after_fetch :
      StateCache → ℕ → Bytes → Shared → Result (MarketState P) × State P → Shared × State P
  after_fetch cache i id shared (ok st, s) =
      (put i st shared, record s { world = cache.store id st s.world })
  after_fetch cache i id shared (err e, s) = (note_error id e shared, s)
  after_fetch cache i id shared (both st e, s) = (note_error id e shared, s)

  -- The goroutine of an index: the cache, and then the network.
  unfoldable pub run_one :
      FactoryService P → StateCache → ℕ → Bytes → Shared × State P → Shared × State P
  unfolding get_cached
  run_one m cache i id (shared, s) =
      let (cached, s') = get_cached cache id s in
      elim cached [
        | some st ↦ (put i st shared, s')
        | none ↦ after_fetch cache i id shared (fetch_market_state P m id s')
      ]

  abbrev pub run_index :
      FactoryService P → StateCache → ℕ → Option Bytes → Shared × State P → Shared × State P
  run_index m cache i none now = now
  run_index m cache i (some id) now = run_one m cache i id now

  -- The goroutines of the indices, in an order.
  unfoldable pub run_all :
      FactoryService P → StateCache → List Bytes → List ℕ → Shared × State P → Shared × State P
  unfolding run_one
  run_all m cache ids [] now = now
  run_all m cache ids (i ∷ order) now =
      run_all m cache ids order (run_index m cache i (get_elem? ids i) now)

  abbrev pub keep_state : Option (MarketState P) → List (MarketState P) → List (MarketState P)
  keep_state none rest = rest
  keep_state (some st) rest = if is_empty st.contract_id then rest else st ∷ rest

  -- The states with a contract id, in their order.
  unfoldable pub valid_states : List (Option (MarketState P)) → List (MarketState P)
  valid_states [] = []
  valid_states (o ∷ os) = keep_state o (valid_states os)

  unfoldable pub conclude_states : List Bytes → Shared → Result (List (MarketState P))
  unfolding valid_states
  conclude_states ids shared = elim shared.first_err [
    | none ↦ ok (valid_states shared.states)
    | some e ↦
        if length (valid_states shared.states) == 0 && not (length ids == 0)
        then err (wrapped "failed to fetch any market states: " e)
        else ok (valid_states shared.states)
  ]

  -- `order` is the order in which the goroutines run.
  unfoldable pub get_market_states :
      FactoryService P
      → StateCache
      → List ℕ
      → List Bytes
      → State P
      → Result (List (MarketState P)) × State P
  unfolding run_all conclude_states
  get_market_states m cache order ids s =
      let (shared, s') =
        run_all m cache ids order
          (record { states = replicate (length ids) none; first_err = none }, s) in
      (conclude_states ids shared, s')
