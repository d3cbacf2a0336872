-- ===== src/Demo/Site.antt =====
-- The small platform's site: a gateway that serves an identifier as its own content, a wallet's server
-- that sends back what it gets, and a handler of the main network.
use total.Prelude.{String, true, ◌||◌, none, some, [], ◌∷◌, replicate, if◌then◌else◌}
use total.Bytes.{Bytes, text, show_nat, bytes_eq}
use total.Errors.{ok, err, failure}
use total.Ipfs.Fetch.{content}
use total.Handler.Web.{Web, Request, MarketHandler, Schedule, replied}
use total.Demo.{demo, demo_service, demo_factory, demo_cache, demo_key, demo_contract}

abbrev pub demo_web : Web demo
demo_web = record {
  get_content = λ url w. (content url, w);
  pause = λ ms w. (none, w);
  unmarshal_metadata = λ b. err (failure "no metadata");
  url_path = λ b. ok b;
  clock = show_nat;
  marshal_uri = λ b. ok b;
  post_wallet = λ url body w. (replied 200 body, w);
  unmarshal_wallet = λ b. ok [];
}

abbrev pub demo_handler : MarketHandler demo demo_web
demo_handler = record {
  market_service = demo_service;
  factory_service = some demo_factory;
  state_cache = demo_cache;
  event_service = none;
  ipfs_client = none;
  oracle_public_key = demo_key;
  network_passphrase = text "Public";
}

-- The same form for all: two shares of YES, and an account.
unfoldable pub demo_form : String → Bytes
demo_form key =
    let name = text key in
    if bytes_eq name (text "user_public_key") || bytes_eq name (text "account_id")
    then demo_key
    else if bytes_eq name (text "outcome")
    then text "yes"
    else if bytes_eq name (text "amount")
    then text "2"
    else if bytes_eq name (text "uri")
    then text "web+stellar:tx?xdr=AAAA"
    else if bytes_eq name (text "metadata_hash")
    then b'Q' ∷ b'm' ∷ replicate 44 b'a'
    else if bytes_eq name (text "liquidity_param") || bytes_eq name (text "initial_funding")
    then text "100"
    else []

abbrev pub demo_request : Request
demo_request = record {
  path = text "/market/C/buy";
  path_id = demo_contract;
  form_error = none;
  form = demo_form;
  query = λ key. [];
  cookie = none;
  referer = [];
}

abbrev pub demo_schedule : Schedule
demo_schedule = record { states_order = 0 ∷ []; views_order = 0 ∷ []; yes_first = true }
