-- ===== src/Tests/Parts.antt =====
-- The theorems on charts, on stored content, on the wait for a transaction and on the start, at
-- concrete inputs.
use total.Soroban.Types.{tx_result_not_found, tx_result_success, rpc_error_text}
use total.Prelude.{
  ℕ, ◌+◌, ◌*◌, true, false, Option, none, some, List, [], ◌∷◌, ◌≡◌, ◌≤◌, All, refl, arith,
  Bool-cases, inl, inr, get_elem?,
}
use total.Bytes.{Bytes, text, bytes_eq, bytes_eq_iff, utf8}
use total.Errors.{ok, failure}
use total.Model.{PricePoint}
use total.Chart.{plot_from}
use total.Chart.Drawing.{blank, read, IsCanvas}
use total.Chart.Laws.{pixel, plot_from-pixel}
use total.Soroban.Client.{
  State, get_transaction, call_for, call, check_response, next_id, post_body, read_exchange,
}
use total.Soroban.Client.Wait.{Wake, tick, wait_for_transaction}
use total.Soroban.Client.Liveness.{Settles, succeeds, not_yet, wait_for_transaction-Settles}
use total.Service.Events.{Cache}
use total.Ipfs.Fetch.{Gateway, content, not_sent, IsCounted, read_answer}
use total.Ipfs.Store.{IpfsClient, get_json, warmup}
use total.Ipfs.Store.Laws.{IsContentStore, IsQuiet, Agrees, get_json-refines, warmup-requests}
use total.Handler.Web.{MarketHandler}
use total.Config.Start.{Caches, Served, stopped}
use total.Demo.{demo, demo_floats, demo_client, demo_state, demo_cache, reply_transaction}
use total.Demo.Site.{demo_web}

abbrev two_points : List (PricePoint demo_floats)
two_points =
    record { timestamp = 10; price_yes = 50 } ∷ record { timestamp = 20; price_yes = 100 } ∷ []

plot_from-pixel_example :
    IsCanvas 12 4 (plot_from demo_floats 12 4 0 two_points (blank 12 4))
    × (read 1 6 (plot_from demo_floats 12 4 0 two_points (blank 12 4))
        ≡ pixel demo_floats 4 (get_elem? two_points 0) 1)
plot_from-pixel_example =
    plot_from-pixel demo_floats 12 3 two_points 1 0 (omega arith) (omega arith)

-- A world that is the cache, as its entries, and a gateway that serves an identifier as its own
-- content.
abbrev Entries : Type 0
Entries = List (Bytes × Bytes)

abbrev find : Bytes → Entries → Option Bytes
find key [] = none
find key ((k, v) ∷ more) =
    let rest = find key more in elim (bytes_eq k key) [ true ↦ some v | false ↦ rest ]

abbrev echo : Gateway
echo = record { World = Entries; get = λ url w. (content url, w); pause = λ ms w. (none, w) }

abbrev entry_cache : Cache Entries Bytes
entry_cache = record { look_up = λ k w. ((find k w, none), w); store = λ k v w. (k, v) ∷ w }

abbrev IsEcho : Entries → Type 0
IsEcho = All λ (k, v). v ≡ k

find_named : (key d : Bytes) (w : Entries) → IsEcho w → find key w ≡ some d → d ≡ key
find_named key d [] h e = absurd (ground (arith, e))
find_named key d ((k, v) ∷ more) (same, hs) e = elim (Bool-cases (bytes_eq k key)) [
  | inl hit ↦ ground (arith, e, hit, same, (bytes_eq_iff k key).0 hit)
  | inr miss ↦ find_named key d more hs (ground (arith, e, miss))
]

echo-IsContentStore : IsContentStore echo [] entry_cache (λ hash. hash) IsEcho
unfolding read_answer
echo-IsContentStore = record {
  get_named = λ hash w. refl;
  get_keeps = λ url w r. r;
  pause_keeps = λ ms w r. r;
  look_up_named = λ hash d w r found. find_named hash d w r found;
  look_up_keeps = λ hash w r. r;
  store_keeps = λ hash w r. (refl, r);
}

abbrev echo_client : IpfsClient echo (λ b. b)
echo_client = record { api_key = []; api_secret = []; gateway_url = []; cache = entry_cache }

get_json-refines_example :
    Agrees (ok (text "Q")) (get_json echo (λ b. b) (λ b. ok b) echo_client (text "Q") []).0
    × IsEcho (get_json echo (λ b. b) (λ b. ok b) echo_client (text "Q") []).1
get_json-refines_example =
    get_json-refines echo (λ b. b) echo_client echo-IsContentStore (λ b. ok b) (text "Q") [] tt

-- A gateway that counts its requests and never answers.
abbrev mute : Gateway
mute = record {
  World = ℕ;
  get = λ url w. (not_sent (failure "no answer"), w + 1);
  pause = λ ms w. (none, w);
}

abbrev mute_client : IpfsClient mute (λ b. b)
mute_client = record {
  api_key = [];
  api_secret = [];
  gateway_url = [];
  cache = record { look_up = λ k w. ((none, none), w); store = λ k v w. w };
}

mute-IsCounted : IsCounted mute (λ w. w)
mute-IsCounted = record { get_counted = λ url w. refl; pause_counted = λ ms w. refl }

mute-IsQuiet : IsQuiet mute mute_client.cache (λ w. w)
mute-IsQuiet = record { store_quiet = λ hash d w. refl }

warmup-requests_example :
    warmup mute (λ b. b) mute_client (text "a" ∷ [] ∷ text "b" ∷ []) 7 ≤ 7 + 4 * 3
warmup-requests_example =
    warmup-requests mute (λ b. b) mute_client mute-IsCounted mute-IsQuiet
      (text "a" ∷ [] ∷ text "b" ∷ []) 7

abbrev wakes : List Wake
wakes = tick 12 ∷ tick 14 ∷ tick 31 ∷ []

abbrev settled : State demo
settled = record { request_id = 2; world = [] }

settles :
    Settles demo demo_client
      (text "ab")
      30
      wakes
      (demo_state (0 ∷ 1 ∷ []))
      (reply_transaction 1)
      settled
unfolding get_transaction call_for call check_response next_id post_body read_exchange text utf8
    bytes_eq tx_result_not_found tx_result_success rpc_error_text
settles =
    not_yet {s = demo_state (0 ∷ 1 ∷ [])} {u = record { request_id = 1; world = 1 ∷ [] }}
      {q = reply_transaction 0} (omega arith) refl refl (succeeds (omega arith) refl refl refl)

wait_for_transaction-Settles_example :
    wait_for_transaction demo demo_client (text "ab") 10 20 wakes (demo_state (0 ∷ 1 ∷ []))
    ≡ some (ok (reply_transaction 1), settled)
wait_for_transaction-Settles_example =
    wait_for_transaction-Settles demo demo_client (text "ab") 10 20 wakes (demo_state (0 ∷ 1 ∷ []))
      settled (reply_transaction 1) settles

abbrev caches : Caches demo demo_web
caches = record {
  market_list = demo_cache;
  states = demo_cache;
  events = demo_cache;
  contents = demo_cache;
}

-- An environment in which every variable is "mainnet".
abbrev environment : Bytes → Bytes
environment key = text "mainnet"

abbrev stop_at_once : Bytes → MarketHandler demo demo_web → Served
stop_at_once port h = stopped none
