-- ===== src/Ipfs/Fetch.antt =====
-- internal/ipfs/client.go: `fetchFromGateway`, which retries a fetch with exponential backoff.
use total.Prelude.{
  ℕ, zero, suc, ◌+◌, ◌*◌, Bool, false, Option, none, some, ◌++◌, [], ◌==◌, if◌then◌else◌, ◌≡◌, ◌≢◌,
  ◌≤◌, refl, arith, Option-cases, inl, inr,
}
use Prim.Native.Nat.{min}
use total.Bytes.{Bytes, text}
use total.Errors.{Error, gateway, plain, sentinel, wrap, wrapped, Result, ok, err, both}
use total.Ipfs.Cid.{validate_cid}

-- What a GET of the gateway yields, by the step at which it fails; `status` is the response's code
-- and status line.
pub data Answer : Type 0 where
  not_created not_sent not_read : Error → Answer
  status : ℕ → Bytes → Answer
  content : Bytes → Answer

-- The HTTP client and the timer. `pause` waits for some milliseconds, or until the context ends.
pub record Gateway : Type 1 where
  pub World : Type 0
  pub get : Bytes → World → Answer × World
  pub pause : ℕ → World → Option Error × World

abbrev pub max_retries : ℕ
max_retries = 3

abbrev pub initial_backoff : ℕ
initial_backoff = 500

abbrev pub max_backoff : ℕ
max_backoff = 5000

-- `doFetch`, on the answer of the gateway; a status other than 200 is a gateway error.
unfoldable pub read_answer : Answer → Result Bytes
read_answer (not_created e) = err (wrapped "failed to create request: " e)
read_answer (not_sent e) = err (wrapped "failed to fetch from IPFS: " e)
read_answer (not_read e) = err (wrapped "failed to read response: " e)
read_answer (status code line) = err (gateway code line)
read_answer (content d) = ok d

-- `errors.As` and the test of the status.
unfoldable pub is_rate_limit_error : Error → Bool
is_rate_limit_error (sentinel s) = false
is_rate_limit_error (plain m) = false
is_rate_limit_error (gateway code line) = code == 429
is_rate_limit_error (wrap before e after) = is_rate_limit_error e

-- `base` is the gateway's URL, and `hash` what is fetched.
module _ (G : Gateway) (base hash : Bytes) where
  unfoldable pub do_fetch : G.World → Result Bytes × G.World
  unfolding read_answer
  do_fetch w = let (a, w') = G.get (base ++ hash) w in (read_answer a, w')

  abbrev pub Fetched : Type 0
  Fetched = Result Bytes × G.World

  -- The end of a round: return, or go on to the next with the error.
  abbrev pub after_fetch : Fetched → (Error → G.World → Fetched) → Fetched
  after_fetch (ok d, w) again = (ok d, w)
  after_fetch (err e, w) again = if is_rate_limit_error e then again e w else (err e, w)
  after_fetch (both d e, w) again = if is_rate_limit_error e then again e w else (err e, w)

  abbrev pub after_pause : Option Error × G.World → (G.World → Fetched) → Fetched
  after_pause (some e, w) again = (err e, w)
  after_pause (none, w) again = again w

  -- The rounds after the first: so many are left, with the backoff before the next.
  unfoldable pub retry : ℕ → ℕ → Error → G.World → Fetched
  retry zero backoff last w = (err (wrapped "max retries exceeded: " last), w)
  retry (suc left) backoff last w =
      after_pause (G.pause backoff w)
        (λ w'. after_fetch (do_fetch w') (retry left (min (backoff * 2) max_backoff)))

  -- `quote` is the `%q` of package fmt.
  unfoldable pub fetch_from_gateway : (Bytes → Bytes) → G.World → Fetched
  unfolding retry do_fetch
  fetch_from_gateway quote w = elim (validate_cid hash) [
    | some e ↦ (err (wrap (text "invalid IPFS hash " ++ (quote hash ++ text ": ")) e []), w)
    | none ↦ after_fetch (do_fetch w) (retry max_retries initial_backoff)
  ]

-- Data, or an error that is not a rate limit.
abbrev pub IsFinal : Result Bytes → Type 0
IsFinal (ok d) = Unit
IsFinal (err e) = is_rate_limit_error e ≡ false
IsFinal (both d e) = ⊥

-- The gateway's requests can be counted: a GET is one, and waiting is none.
pub record IsCounted (G : Gateway) (requests : G.World → ℕ) : Type 0 where
  pub get_counted : (url : Bytes) (w : G.World) → requests (G.get url w).1 ≡ requests w + 1
  pub pause_counted : (ms : ℕ) (w : G.World) → requests (G.pause ms w).1 ≡ requests w

module _ (G : Gateway) (base hash : Bytes) {requests : G.World → ℕ}
    (counted : IsCounted G requests) where
  do_fetch-requests : (w : G.World) → requests (do_fetch G base hash w).1 ≡ requests w + 1
  unfolding do_fetch
  do_fetch-requests w = counted.get_counted (base ++ hash) w

  after_fetch-requests :
      (f : Fetched G base hash) (again : Error → G.World → Fetched G base hash) (bound : ℕ)
      → requests f.1 ≤ bound
      → ((e : Error) → requests (again e f.1).1 ≤ bound)
      → requests (after_fetch G base hash f again).1 ≤ bound
  after_fetch-requests (ok d, w) again bound low h = low
  after_fetch-requests (err e, w) again bound low h = ground (arith, h e)
  after_fetch-requests (both d e, w) again bound low h = ground (arith, h e)

  after_pause-requests :
      (p : Option Error × G.World) (again : G.World → Fetched G base hash) (bound : ℕ)
      → requests p.1 ≤ bound
      → requests (again p.1).1 ≤ bound
      → requests (after_pause G base hash p again).1 ≤ bound
  after_pause-requests (some e, w) again bound low h = low
  after_pause-requests (none, w) again bound low h = h

  retry-requests :
      (left backoff : ℕ) (last : Error) (w : G.World)
      → requests (retry G base hash left backoff last w).1 ≤ requests w + left
  unfolding retry
  retry-requests zero backoff last w = omega arith
  retry-requests (suc left) backoff last w =
      let same = counted.pause_counted backoff w in
      let one = do_fetch-requests (G.pause backoff w).1 in
      after_pause-requests (G.pause backoff w) _ _ (omega (arith, same)) (
        after_fetch-requests (do_fetch G base hash (G.pause backoff w).1) _ _
          (omega (arith, same, one))
          λ e. omega (arith, same, one, retry-requests left (min (backoff * 2) max_backoff) e _))

  after_fetch_final :
      (f : Fetched G base hash) (again : Error → G.World → Fetched G base hash)
      → IsFinal f.0
      → after_fetch G base hash f again ≡ f
  after_fetch_final (ok d, w) again h = refl
  after_fetch_final (err e, w) again h = rw h
  after_fetch_final (both d e, w) again h = absurd h

  -- Where a gateway's requests can be counted, a fetch leaves the world as it is for an identifier
  -- that is not valid, and it never sends more than four requests.
  pub fetch_from_gateway-requests :
      (quote : Bytes → Bytes) (w : G.World)
      → (validate_cid hash ≢ none → (fetch_from_gateway G base hash quote w).1 ≡ w)
        × (requests (fetch_from_gateway G base hash quote w).1 ≤ requests w + 4)
  unfolding fetch_from_gateway
  fetch_from_gateway-requests quote w = elim (Option-cases (validate_cid hash)) [
    | inl valid ↦
        rw (valid, fetch_from_gateway)
          (
            (λ invalid. absurd (invalid refl)),
            after_fetch-requests (do_fetch G base hash w) _ _ (omega (arith, do_fetch-requests w))
                λ e.
                  omega
                    (arith, do_fetch-requests w, retry-requests max_retries initial_backoff e _),
          )
    | inr (e, invalid) ↦ rw (invalid, fetch_from_gateway) ((λ _. refl), omega arith)
  ]

  -- For a valid identifier, where the first answer is data or an error that is no rate limit, the
  -- fetch is that one request and its answer.
  fetch_from_gateway-at_once :
      (quote : Bytes → Bytes) (w : G.World)
      → validate_cid hash ≡ none
      → IsFinal (do_fetch G base hash w).0
      → fetch_from_gateway G base hash quote w ≡ do_fetch G base hash w
  unfolding fetch_from_gateway
  fetch_from_gateway-at_once quote w valid h =
      rw (valid, fetch_from_gateway) (after_fetch_final (do_fetch G base hash w) _ h)
