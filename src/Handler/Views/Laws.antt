-- ===== src/Handler/Views/Laws.antt =====
-- internal/handler/market.go: the views of markets stand in the places of their states, whatever the
-- order of the goroutines.
use total.Prelude.{
  ℕ, zero, suc, true, false, Option, none, some, List, [], ◌∷◌, ◌++◌, length, get_elem?, replicate,
  ◌==◌, ◌≡◌, ◌≢◌, ◌<◌, ◌⊎◌, ◌∙◌, refl, sym, ap, arith, inl, inr, Bool-cases, Option-cases, ==_iff,
}
use total.Prelude.Int.{pos}
use total.Bytes.{Bytes, text, is_empty}
use total.Config.{short_id}
use total.Ipfs.Store.{IpfsClient, get_json}
use total.Errors.{Result, ok, err, both}
use total.Model.{MarketMetadata}
use total.Soroban.Client.{State}
use total.Service.Factory.{MarketState}
use total.Service.States.{set_at}
use total.Handler.Web.{Web, MarketHandler, MarketView, gateway_of}
use total.Handler.Views.{
  empty_view, view_of_state, unscaled, described_view, describe, build_view, build_index, build_all,
  build_market_views,
}
use total.Platform.{Platform}

-- A number is in a list.
abbrev pub Member : ℕ → List ℕ → Type 0
Member i [] = ⊥
Member i (j ∷ js) = (i ≡ j) ⊎ Member i js

module _ {A : Type 0} where
  length-set_at : (i : ℕ) (v : A) (xs : List A) → length (set_at i v xs) ≡ length xs
  unfolding set_at
  length-set_at i v [] = refl
  length-set_at zero v (x ∷ xs) = refl
  length-set_at (suc i) v (x ∷ xs) = ap suc (length-set_at i v xs)

  get_elem?-set_at :
      (i : ℕ) (v : A) (xs : List A) → i < length xs → get_elem? (set_at i v xs) i ≡ some v
  unfolding set_at
  get_elem?-set_at i v [] h = absurd (omega (arith, h))
  get_elem?-set_at zero v (x ∷ xs) h = refl
  get_elem?-set_at (suc i) v (x ∷ xs) h = get_elem?-set_at i v xs (omega (arith, h))

  get_elem?-set_at_other :
      (i j : ℕ) (v : A) (xs : List A) → i ≢ j → get_elem? (set_at j v xs) i ≡ get_elem? xs i
  unfolding set_at
  get_elem?-set_at_other i j v [] h = refl
  get_elem?-set_at_other zero zero v (x ∷ xs) h = absurd (h refl)
  get_elem?-set_at_other (suc i) zero v (x ∷ xs) h = refl
  get_elem?-set_at_other zero (suc j) v (x ∷ xs) h = refl
  get_elem?-set_at_other (suc i) (suc j) v (x ∷ xs) h =
      get_elem?-set_at_other i j v xs λ e. h (ap suc e)

  get_elem?_bound : (i : ℕ) (xs : List A) {a : A} → get_elem? xs i ≡ some a → i < length xs
  get_elem?_bound i [] e = absurd (ground (arith, e))
  get_elem?_bound zero (x ∷ xs) e = omega arith
  get_elem?_bound (suc i) (x ∷ xs) e = omega (arith, get_elem?_bound i xs e)

length-replicate : {A : Type 0} (n : ℕ) (a : A) → length (replicate n a) ≡ n
length-replicate zero a = refl
length-replicate (suc n) a = ap suc (length-replicate n a)

module _ (P : Platform) (W : Web P) (h : MarketHandler P W) (states : List (MarketState P)) where
  open P use {floats}

  -- What is found of a hash: nothing where it is empty or there is no client, and otherwise what the
  -- client reads, in some world, of this hash.
  abbrev pub IsFound : Bytes → Option (Result MarketMetadata) → Type 0
  IsFound hash found =
      ((is_empty hash ≡ true) × (found ≡ none))
      ⊎ ((h.ipfs_client ≡ none) × (found ≡ none))
      ⊎ ((c : IpfsClient (gateway_of P W) P.quote) × (w : P.World) × (is_empty hash ≡ false)
          × (h.ipfs_client ≡ some c)
          × (found ≡ some (get_json (gateway_of P W) P.quote W.unmarshal_metadata c hash w).0))

  -- The question, the description and the error that a view shows of what was found.
  abbrev pub texts_of : Bytes → Option (Result MarketMetadata) → Bytes × (Bytes × Bytes)
  texts_of id none = (text "Market " ++ short_id id, ([], []))
  texts_of id (some (ok m)) = (m.question, (m.description, []))
  texts_of id (some (err e)) =
      (text "Market " ++ short_id id, ([], text "Failed to load market details from IPFS"))
  texts_of id (some (both m e)) =
      (text "Market " ++ short_id id, ([], text "Failed to load market details from IPFS"))

  -- A view shows a state, and what was found of its metadata.
  abbrev pub ShowsState : MarketState P → MarketView P → Type 0
  ShowsState st v =
      (v.id ≡ st.contract_id)
      × (v.price_yes ≡ st.price_yes)
      × (v.price_no ≡ st.price_no)
      × (v.yes_sold ≡ floats.div (floats.of_int st.yes_sold) (floats.of_int (pos 10_000_000)))
      × (v.no_sold ≡ floats.div (floats.of_int st.no_sold) (floats.of_int (pos 10_000_000)))
      × (v.is_resolved ≡ st.resolved)
      × (v.metadata_hash ≡ st.metadata_hash)

  pub record IsViewOf (st : MarketState P) (v : MarketView P) : Type 0 where
    pub shows : ShowsState st v
    pub found : Option (Result MarketMetadata)
    pub is_found : IsFound st.metadata_hash found
    pub texts : (v.question, (v.description, v.metadata_error)) ≡ texts_of st.contract_id found

  -- In a place stands a view of a state.
  abbrev pub IsAt : List (MarketView P) → ℕ → MarketState P → Type 0
  IsAt views i st = (v : MarketView P) × (get_elem? views i ≡ some v) × IsViewOf st v

  describe-IsFound : (hash : Bytes) (s : State P) → IsFound hash (describe P W h hash s).0
  unfolding describe
  describe-IsFound hash s = elim (Bool-cases (is_empty hash)) [
    | inl empty ↦ inl (empty, rw (empty, describe) refl)
    | inr full ↦ elim (Option-cases h.ipfs_client) [
      | inl missing ↦ inr (inl (missing, rw (full, missing, describe) refl))
      | inr (c, there) ↦ inr (inr (c, s.world, full, there, rw (full, there, describe) refl))
    ]
  ]

  described_view-IsViewOf :
      (st : MarketState P) (found : Option (Result MarketMetadata))
      → IsFound st.metadata_hash found
      → IsViewOf st (described_view P W (view_of_state P W st) found)
  unfolding view_of_state unscaled
  described_view-IsViewOf st none h' = record {
    shows = (refl, refl, refl, refl, refl, refl, refl);
    found = _;
    is_found = h';
    texts = refl;
  }
  described_view-IsViewOf st (some (ok m)) h' = record {
    shows = (refl, refl, refl, refl, refl, refl, refl);
    found = _;
    is_found = h';
    texts = refl;
  }
  described_view-IsViewOf st (some (err e)) h' = record {
    shows = (refl, refl, refl, refl, refl, refl, refl);
    found = _;
    is_found = h';
    texts = refl;
  }
  described_view-IsViewOf st (some (both m e)) h' = record {
    shows = (refl, refl, refl, refl, refl, refl, refl);
    found = _;
    is_found = h';
    texts = refl;
  }

  abbrev Views : Type 0
  Views = List (MarketView P) × State P

  build_index-length :
      (j : ℕ) (o : Option (MarketState P)) (now : Views)
      → length (build_index P W h j o now).0 ≡ length now.0
  build_index-length j none now = refl
  build_index-length j (some st) (views, s) = length-set_at j _ views

  build_index-IsAt :
      (i : ℕ) (st : MarketState P) (now : Views)
      → length now.0 ≡ length states
      → get_elem? states i ≡ some st
      → IsAt (build_index P W h i (get_elem? states i) now).0 i st
  unfolding build_view
  build_index-IsAt i st (views, s) size at = rw at (
    described_view P W (view_of_state P W st) (describe P W h st.metadata_hash s).0,
    get_elem?-set_at i _ views (omega (arith, size, get_elem?_bound i states at)),
    described_view-IsViewOf st _ (describe-IsFound st.metadata_hash s),
  )

  build_index-IsAt_other :
      (i j : ℕ) (o : Option (MarketState P)) (st : MarketState P) (now : Views)
      → i ≢ j
      → IsAt now.0 i st
      → IsAt (build_index P W h j o now).0 i st
  build_index-IsAt_other i j none st now other there = there
  build_index-IsAt_other i j (some new) st (views, s) other (v, there, is_view) =
      (v, get_elem?-set_at_other i j _ views other ∙ there, is_view)

  -- A place that has come up, or is still to come, is filled or still to come after a step.
  build_step :
      (j : ℕ) (order : List ℕ) (i : ℕ) (st : MarketState P) (now : Views)
      → length now.0 ≡ length states
      → get_elem? states i ≡ some st
      → Member i (j ∷ order) ⊎ IsAt now.0 i st
      → Member i order ⊎ IsAt (build_index P W h j (get_elem? states j) now).0 i st
  build_step j order i st now size at h' = elim (Bool-cases (i == j)) [
    | inl e ↦ inr (rw (sym ((==_iff i j).0 e)) (build_index-IsAt i st now size at))
    | inr e ↦
        let other : i ≢ j = λ same. ground (arith, e, (==_iff i j).1 same) in
        elim h' [
          | inl member ↦ elim member [ inl same ↦ absurd (other same) | inr later ↦ inl later ]
          | inr there ↦ inr (build_index-IsAt_other i j (get_elem? states j) st now other there)
        ]
  ]

  build_all-IsAt :
      (order : List ℕ) (i : ℕ) (st : MarketState P) (now : Views)
      → length now.0 ≡ length states
      → get_elem? states i ≡ some st
      → Member i order ⊎ IsAt now.0 i st
      → IsAt (build_all P W h states order now).0 i st
  unfolding build_all
  build_all-IsAt [] i st now size at (inl member) = absurd member
  build_all-IsAt [] i st now size at (inr there) = there
  build_all-IsAt (j ∷ order) i st now size at h' =
      let kept = build_index-length j (get_elem? states j) now in
      build_all-IsAt order i st _ (kept ∙ size) at (build_step j order i st now size at h')

  -- In every order of the goroutines in which the place of a state comes up, the view that stands in
  -- this place at the end shows that state's contract, prices, resolution and hash, its quantities in
  -- tokens, and the texts of its metadata: of what the IPFS client reads, in some world, of the state's
  -- own hash. Without a hash or a client, or where the reading fails, the contract gives the title.
  pub build_market_views-IsAt :
      (order : List ℕ) (s : State P) (i : ℕ) (st : MarketState P)
      → get_elem? states i ≡ some st
      → Member i order
      → IsAt (build_market_views P W h order states s).0 i st
  unfolding build_market_views
  build_market_views-IsAt order s i st at member =
      build_all-IsAt order i st _ (length-replicate (length states) (empty_view P W)) at
        (inl member)
