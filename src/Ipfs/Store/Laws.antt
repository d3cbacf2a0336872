-- ===== src/Ipfs/Store/Laws.antt =====
-- internal/ipfs/client.go: reading through the cache against the store that it stands for, where a
-- gateway serves what a content identifier names, and the number of requests of a warm-up.
use total.Prelude.{
  ℕ, String, zero, suc, ◌+◌, ◌*◌, none, some, Option, List, [], ◌∷◌, ◌++◌, length, if◌then◌else◌,
  ◌≡◌, ◌≤◌, refl, sym, arith, Option-cases, Bool-cases, inl, inr, ltb,
}
use Prim.Native.Nat.{min}
use total.Bytes.{Bytes, is_empty}
use total.Errors.{Error, Result, ok, err, both}
use total.Soroban.Address.{relabel_result}
use total.Service.Events.{Cache}
use total.Ipfs.Cid.{validate_cid}
use total.Ipfs.Fetch.{
  Gateway, Fetched, do_fetch, read_answer, retry, after_fetch, after_pause, is_rate_limit_error,
  fetch_from_gateway, max_retries, initial_backoff, max_backoff, IsCounted,
  fetch_from_gateway-requests,
}
use total.Ipfs.Store.{
  IpfsClient, fetch, get_bytes, get_json, decode_json, store_fetched, rest_before, warmup_from,
  warmup,
}

-- Data, if it is any, that is this.
abbrev pub IsData : Bytes → Result Bytes → Type 0
IsData d (ok b) = b ≡ d
IsData d (err e) = Unit
IsData d (both b e) = Unit

-- What the gateway and the cache of a client rely on: a GET of an identifier below `base` serves
-- nothing but what the identifier names, and the cache returns what it was given. `Right` says of a
-- world that the entries of the cache are right.
pub record IsContentStore (G : Gateway) (base : Bytes) (cache : Cache G.World Bytes)
    (named : Bytes → Bytes) (Right : G.World → Type 0) : Type 0 where
  pub get_named :
      (hash : Bytes) (w : G.World) → IsData (named hash) (read_answer (G.get (base ++ hash) w).0)
  pub get_keeps : (url : Bytes) (w : G.World) → Right w → Right (G.get url w).1
  pub pause_keeps : (ms : ℕ) (w : G.World) → Right w → Right (G.pause ms w).1
  pub look_up_named :
      (hash d : Bytes) (w : G.World)
      → Right w
      → (cache.look_up hash w).0.0 ≡ some d
      → d ≡ named hash
  pub look_up_keeps : (hash : Bytes) (w : G.World) → Right w → Right (cache.look_up hash w).1
  pub store_keeps : (hash : Bytes) (w : G.World) → Right w → Right (cache.store hash (named hash) w)

module _ (G : Gateway) (base hash : Bytes) {cache : Cache G.World Bytes} {named : Bytes → Bytes}
    {Right : G.World → Type 0} (store : IsContentStore G base cache named Right) where
  -- A fetch that returned nothing but what the identifier names, in a right world.
  abbrev pub IsRight : Fetched G base hash → Type 0
  IsRight f = IsData (named hash) f.0 × Right f.1

  do_fetch-IsRight : (w : G.World) → Right w → IsRight (do_fetch G base hash w)
  unfolding do_fetch
  do_fetch-IsRight w r = (store.get_named hash w, store.get_keeps (base ++ hash) w r)

  after_fetch-IsRight :
      (f : Fetched G base hash) (again : Error → G.World → Fetched G base hash)
      → IsRight f
      → ((e : Error) → IsRight (again e f.1))
      → IsRight (after_fetch G base hash f again)
  after_fetch-IsRight (ok d, w) again h more = h
  after_fetch-IsRight (err e, w) again (h, r) more = elim (Bool-cases (is_rate_limit_error e)) [
    | inl limited ↦ rw limited (more e)
    | inr other ↦ rw other (tt, r)
  ]
  after_fetch-IsRight (both d e, w) again (h, r) more = elim (Bool-cases (is_rate_limit_error e)) [
    | inl limited ↦ rw limited (more e)
    | inr other ↦ rw other (tt, r)
  ]

  after_pause-IsRight :
      (p : Option Error × G.World) (again : G.World → Fetched G base hash)
      → Right p.1
      → IsRight (again p.1)
      → IsRight (after_pause G base hash p again)
  after_pause-IsRight (some e, w) again r more = (tt, r)
  after_pause-IsRight (none, w) again r more = more

  retry-IsRight :
      (left backoff : ℕ) (last : Error) (w : G.World)
      → Right w
      → IsRight (retry G base hash left backoff last w)
  unfolding retry
  retry-IsRight zero backoff last w r = (tt, r)
  retry-IsRight (suc left) backoff last w r =
      let paused = store.pause_keeps backoff w r in
      let fetched = do_fetch-IsRight (G.pause backoff w).1 paused in
      after_pause-IsRight (G.pause backoff w) _ paused (
        after_fetch-IsRight (do_fetch G base hash (G.pause backoff w).1) _ fetched
          λ e. retry-IsRight left (min (backoff * 2) max_backoff) e _ fetched.1)

  fetch_from_gateway-IsRight :
      (quote : Bytes → Bytes) (w : G.World)
      → Right w
      → IsRight (fetch_from_gateway G base hash quote w)
  unfolding fetch_from_gateway
  fetch_from_gateway-IsRight quote w r = elim (Option-cases (validate_cid hash)) [
    | inl valid ↦
        let fetched = do_fetch-IsRight w r in
        rw (valid, fetch_from_gateway)
          (after_fetch-IsRight (do_fetch G base hash w) _ fetched
            λ e. retry-IsRight max_retries initial_backoff e _ fetched.1)
    | inr (e, invalid) ↦ rw (invalid, fetch_from_gateway) (tt, r)
  ]

-- An outcome that is a failure, or that of the specification.
abbrev pub Agrees : {A : Type 0} → Result A → Result A → Type 0
Agrees specified (ok a) = specified ≡ ok a
Agrees specified (err e) = Unit
Agrees specified (both a e) = ⊥

relabel_result-Agrees :
    {A : Type 0} (label : String) (r : Result A) → Agrees r (relabel_result label r)
relabel_result-Agrees label (ok a) = refl
relabel_result-Agrees label (err e) = tt
relabel_result-Agrees label (both a e) = tt

module _ (G : Gateway) (quote : Bytes → Bytes) (c : IpfsClient G quote) {named : Bytes → Bytes}
    {Right : G.World → Type 0} (store : IsContentStore G c.gateway_url c.cache named Right) where
  store_fetched-IsRight :
      (hash : Bytes) (f : Result Bytes × G.World)
      → IsData (named hash) f.0
      → Right f.1
      → IsData (named hash) (store_fetched G quote c hash f).0
        × Right (store_fetched G quote c hash f).1
  store_fetched-IsRight hash (ok d, w) same r = (same, rw same (store.store_keeps hash w r))
  store_fetched-IsRight hash (err e, w) same r = (tt, r)
  store_fetched-IsRight hash (both d e, w) same r = (tt, r)

  get_bytes-IsRight :
      (hash : Bytes) (w : G.World)
      → Right w
      → IsData (named hash) (get_bytes G quote c hash w).0 × Right (get_bytes G quote c hash w).1
  unfolding get_bytes
  get_bytes-IsRight hash w r =
      let kept = store.look_up_keeps hash w r in
      elim (Option-cases (c.cache.look_up hash w).0.1) [
        | inr (e, broken) ↦ rw (broken, get_bytes) (tt, kept)
        | inl fine ↦ elim (Option-cases (c.cache.look_up hash w).0.0) [
          | inr (d, found) ↦
              rw (fine, found, get_bytes) (store.look_up_named hash d w r found, kept)
          | inl missed ↦
              let (same, after) =
                fetch_from_gateway-IsRight G c.gateway_url hash store quote _ kept in
              rw (fine, missed, get_bytes)
                (store_fetched-IsRight hash (fetch G quote c hash _) same after)
        ]
      ]

  decode_json-Agrees :
      {A : Type 0} (unmarshal : Bytes → Result A) (d : Bytes) (r : Result Bytes)
      → IsData d r
      → Agrees (unmarshal d) (decode_json G quote unmarshal r)
  decode_json-Agrees unmarshal d (ok b) same =
      rw (sym same) (relabel_result-Agrees "failed to decode JSON: " (unmarshal b))
  decode_json-Agrees unmarshal d (err e) same = tt
  decode_json-Agrees unmarshal d (both b e) same = tt

  -- Where the gateway serves nothing but what an identifier names, and the cache keeps what it is
  -- given, reading through them refines the store of what identifiers name: in a world whose cache
  -- is right, `get_json` fails or returns what is named, decoded, and it leaves the cache right.
  pub get_json-refines :
      {A : Type 0} (unmarshal : Bytes → Result A) (hash : Bytes) (w : G.World)
      → Right w
      → Agrees (unmarshal (named hash)) (get_json G quote unmarshal c hash w).0
        × Right (get_json G quote unmarshal c hash w).1
  unfolding get_json
  get_json-refines unmarshal hash w r =
      let (same, kept) = get_bytes-IsRight hash w r in
      (decode_json-Agrees unmarshal (named hash) (get_bytes G quote c hash w).0 same, kept)

  rest_before-Right : (i : ℕ) (w : G.World) → Right w → Right (rest_before G quote i w)
  rest_before-Right i w r = elim (Bool-cases (ltb 0 i)) [
    | inl later ↦ rw later (store.pause_keeps 200 w r)
    | inr first ↦ rw first r
  ]

  warmup_from-Right :
      (i : ℕ) (hashes : List Bytes) (w : G.World)
      → Right w
      → Right (warmup_from G quote c i hashes w)
  unfolding warmup_from
  warmup_from-Right i [] w r = r
  warmup_from-Right i (hash ∷ more) w r =
      warmup_from-Right (suc i) more _ (elim (Bool-cases (is_empty hash)) [
        | inl empty ↦ rw empty r
        | inr full ↦
            let rested = rest_before-Right i w r in
            let (same, after) =
              fetch_from_gateway-IsRight G c.gateway_url hash store quote _ rested in
            rw full (store_fetched-IsRight hash (fetch G quote c hash _) same after).1
      ])

-- The cache makes no request.
pub record IsQuiet (G : Gateway) (cache : Cache G.World Bytes) (requests : G.World → ℕ)
    : Type 0 where
  pub store_quiet : (hash d : Bytes) (w : G.World) → requests (cache.store hash d w) ≡ requests w

module _ (G : Gateway) (quote : Bytes → Bytes) (c : IpfsClient G quote) {requests : G.World → ℕ}
    (counted : IsCounted G requests) (quiet : IsQuiet G c.cache requests) where
  store_fetched-requests :
      (hash : Bytes) (f : Result Bytes × G.World)
      → requests (store_fetched G quote c hash f).1 ≡ requests f.1
  store_fetched-requests hash (ok d, w) = quiet.store_quiet hash d w
  store_fetched-requests hash (err e, w) = refl
  store_fetched-requests hash (both d e, w) = refl

  rest_before-requests : (i : ℕ) (w : G.World) → requests (rest_before G quote i w) ≡ requests w
  rest_before-requests i w = elim (Bool-cases (ltb 0 i)) [
    | inl later ↦ rw later (counted.pause_counted 200 w)
    | inr first ↦ rw first refl
  ]

  warmup_one-requests :
      (i : ℕ) (hash : Bytes) (w : G.World)
      → requests (
          if is_empty hash
          then w
          else (store_fetched G quote c hash (fetch G quote c hash (rest_before G quote i w))).1)
        ≤ requests w + 4
  warmup_one-requests i hash w = elim (Bool-cases (is_empty hash)) [
    | inl empty ↦ rw empty (omega arith)
    | inr full ↦
        let w' = rest_before G quote i w in
        rw full (
          omega (
            arith,
            store_fetched-requests hash (fetch G quote c hash w'),
            (fetch_from_gateway-requests G c.gateway_url hash counted quote w').1,
            rest_before-requests i w,
          ))
  ]

  warmup_from-requests :
      (i : ℕ) (hashes : List Bytes) (w : G.World)
      → requests (warmup_from G quote c i hashes w) ≤ requests w + 4 * length hashes
  unfolding warmup_from
  warmup_from-requests i [] w = omega arith
  warmup_from-requests i (hash ∷ more) w =
      omega (arith, warmup_from-requests (suc i) more _, warmup_one-requests i hash w)

  -- Where the gateway's requests can be counted, and the cache makes none, a warm-up sends at most
  -- four requests for each of its identifiers.
  pub warmup-requests :
      (hashes : List Bytes) (w : G.World)
      → requests (warmup G quote c hashes w) ≤ requests w + 4 * length hashes
  unfolding warmup
  warmup-requests hashes w = warmup_from-requests 0 hashes w
