-- ===== src/Ipfs/Store.antt =====
-- internal/ipfs/client.go: the client with its cache, reading and pinning of JSON, and the filling of
-- the cache in the background. The cache is one of package hot; it calls `load_from_gateway` for
-- entries that have expired.
pub mod Laws
use total.Prelude.{
  ℕ, Bool, true, false, not, ◌&&◌, ◌||◌, Option, none, some, List, [], ◌∷◌, ◌++◌, ltb, suc,
  if◌then◌else◌,
}
use total.Bytes.{Bytes, text, is_empty}
use total.Errors.{Error, Result, ok, err, both, wrapped, plain, failure}
use total.Soroban.Address.{relabel_result}
use total.Service.Events.{Cache}
use total.Ipfs.Fetch.{Gateway, Fetched, fetch_from_gateway}

abbrev pub default_ipfs_gateway : Bytes
default_ipfs_gateway = text "https://gateway.pinata.cloud/ipfs/"

abbrev pub pinata_api_url : Bytes
pinata_api_url = text "https://api.pinata.cloud/pinning/pinJSONToIPFS"

pub record PinataResponse : Type 0 where
  pub ipfs_hash : Bytes
  pub pin_size : ℕ
  pub timestamp : ℕ
  pub is_duplicate : Bool

-- What a POST to Pinata yields: a refusal has its status line and what was read of its body.
pub data PinReply : Type 0 where
  not_created not_sent : Error → PinReply
  refused : Bytes → Bytes → PinReply
  accepted : Bytes → PinReply

-- A request to Pinata: its headers, its address and its body.
pub record PinRequest : Type 0 where
  pub headers : List (Bytes × Bytes)
  pub url : Bytes
  pub body : Bytes

-- `quote` is the `%q` of package fmt.
module _ (G : Gateway) (quote : Bytes → Bytes) where
  pub record IpfsClient : Type 0 where
    pub api_key : Bytes
    pub api_secret : Bytes
    pub gateway_url : Bytes
    pub cache : Cache G.World Bytes

  -- `NewClient`, with the cache that it builds.
  unfoldable pub new_ipfs_client : Bytes → Bytes → Cache G.World Bytes → IpfsClient
  new_ipfs_client api_key api_secret cache = record {
    api_key = api_key;
    api_secret = api_secret;
    gateway_url = default_ipfs_gateway;
    cache = cache;
  }

  unfoldable pub can_pin : IpfsClient → Bool
  can_pin c = not (is_empty c.api_key) && not (is_empty c.api_secret)

  abbrev pub fetch : IpfsClient → Bytes → G.World → Result Bytes × G.World
  fetch c hash w = fetch_from_gateway G c.gateway_url hash quote w

  -- The pause of 200 ms before every entry but the first; a `time.Sleep` has no other result.
  abbrev pub rest_before : ℕ → G.World → G.World
  rest_before i w = if ltb 0 i then (G.pause 200 w).1 else w

  abbrev pub Loaded : Type 0
  Loaded = List (Bytes × Bytes)

  abbrev pub keep_loaded : Bytes → Result Bytes → Loaded → Loaded
  keep_loaded hash (ok d) loaded = loaded ++ ((hash, d) ∷ [])
  keep_loaded hash (err e) loaded = loaded
  keep_loaded hash (both d e) loaded = loaded

  -- The loop of `loadFromGateway`, from an index on; the map it fills is a list of pairs.
  unfoldable pub load_from : IpfsClient → ℕ → List Bytes → Loaded → G.World → Loaded × G.World
  load_from c i [] loaded w = (loaded, w)
  load_from c i (hash ∷ more) loaded w =
      let (r, w') = fetch c hash (rest_before i w) in
      load_from c (suc i) more (keep_loaded hash r loaded) w'

  -- `loadFromGateway`; its error is always nil.
  unfoldable pub load_from_gateway : IpfsClient → List Bytes → G.World → Loaded × G.World
  unfolding load_from
  load_from_gateway c hashes w = load_from c 0 hashes [] w

  abbrev pub store_fetched : IpfsClient → Bytes → Result Bytes × G.World → Result Bytes × G.World
  store_fetched c hash (ok d, w) = (ok d, c.cache.store hash d w)
  store_fetched c hash (err e, w) = (err e, w)
  store_fetched c hash (both d e, w) = (err e, w)

  -- The bytes that `GetJSON` decodes: from the cache, or fetched and stored.
  unfoldable pub get_bytes : IpfsClient → Bytes → G.World → Result Bytes × G.World
  get_bytes c hash w =
      let (found, w') = c.cache.look_up hash w in
      elim found.1 [
        | some e ↦ (err (wrapped "cache error: " e), w')
        | none ↦ elim found.0 [
          | some d ↦ (ok d, w')
          | none ↦ store_fetched c hash (fetch c hash w')
        ]
      ]

  abbrev pub decode_json : {A : Type 0} → (Bytes → Result A) → Result Bytes → Result A
  decode_json unmarshal (err e) = err e
  decode_json unmarshal (both d e) = err e
  decode_json unmarshal (ok d) = relabel_result "failed to decode JSON: " (unmarshal d)

  -- `unmarshal` is `json.Unmarshal` into the caller's type.
  unfoldable pub get_json :
      {A : Type 0} → (Bytes → Result A) → IpfsClient → Bytes → G.World → Result A × G.World
  unfolding get_bytes
  get_json unmarshal c hash w = let (r, w') = get_bytes c hash w in (decode_json unmarshal r, w')

  -- The goroutine of `Warmup`, from an index on.
  unfoldable pub warmup_from : IpfsClient → ℕ → List Bytes → G.World → G.World
  warmup_from c i [] w = w
  warmup_from c i (hash ∷ more) w =
      let w' =
        if is_empty hash then w else (store_fetched c hash (fetch c hash (rest_before i w))).1 in
      warmup_from c (suc i) more w'

  unfoldable pub warmup : IpfsClient → List Bytes → G.World → G.World
  unfolding warmup_from
  warmup c hashes w = warmup_from c 0 hashes w

  -- `post` sends a request to Pinata, and `unmarshal` decodes its answer.
  module _ (post : PinRequest → G.World → PinReply × G.World)
      (unmarshal : Bytes → Result PinataResponse) where
    abbrev pub read_pin : PinReply → Result Bytes
    read_pin (not_created e) = err (wrapped "failed to create request: " e)
    read_pin (not_sent e) = err (wrapped "failed to pin JSON: " e)
    read_pin (refused line body) =
        err (plain (text "pinata error: " ++ (line ++ (text " - " ++ body))))
    read_pin (accepted body) = elim (unmarshal body) [
      | ok r ↦ ok r.ipfs_hash
      | err e ↦ err (wrapped "failed to decode response: " e)
      | both r e ↦ err (wrapped "failed to decode response: " e)
    ]

    abbrev pub pin_headers : IpfsClient → List (Bytes × Bytes)
    pin_headers c =
        (text "Content-Type", text "application/json")
        ∷ (text "pinata_api_key", c.api_key)
        ∷ (text "pinata_secret_api_key", c.api_secret)
        ∷ []

    -- `marshalled` is `json.Marshal` of the data under "pinataContent".
    unfoldable pub pin_json : IpfsClient → Result Bytes → G.World → Result Bytes × G.World
    pin_json c marshalled w =
        if is_empty c.api_key || is_empty c.api_secret
        then (err (failure "pinata credentials not configured"), w)
        else elim marshalled [
          | err e ↦ (err (wrapped "failed to marshal JSON: " e), w)
          | both b e ↦ (err (wrapped "failed to marshal JSON: " e), w)
          | ok b ↦
              let (reply, w') =
                post (record { headers = pin_headers c; url = pinata_api_url; body = b }) w in
              (read_pin reply, w')
        ]
