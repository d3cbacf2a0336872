-- ===== src/Handler/Web.antt =====
-- internal/handler/market.go: requests and replies, the handler's parts, the account's cookie, and
-- the answer to an error.
use total.Prelude.{ℕ, String, Bool, ◌*◌, Option, none, some, List, [], if◌then◌else◌}
use total.Prelude.Int.{ℤ, pos}
use total.Bytes.{Bytes, text, is_empty}
use total.Errors.{Error, Result, ok, err, both}
use total.Model.{Market, MarketMetadata, Outcome, TransactionResult}
use total.Config.{network_name}
use total.Soroban.Client.{State}
use total.Service.Events.{EventService, TradeEvent}
use total.Service.Factory.{FactoryService}
use total.Service.States.{StateCache}
use total.Service.Reading.{MarketService}
use total.Service.Quotes.{Quote}
use total.Service.Market.{UserBalance}
use total.Ipfs.Fetch.{Gateway, Answer}
use total.Ipfs.Store.{IpfsClient}
use total.Handler.ErrorCode.{ErrorResponse}
use total.Handler.ErrorMap.{map_error}
use total.Platform.{Platform}

-- What a handler reads of a request: its path and the part of it in place of {id}, what `ParseForm`
-- returns, the values of the form and of the query, the cookie account_id, and the referrer.
pub record Request : Type 0 where
  pub path : Bytes
  pub path_id : Bytes
  pub form_error : Option Error
  pub form : String → Bytes
  pub query : String → Bytes
  pub cookie : Option Bytes
  pub referer : Bytes

pub record SetCookie : Type 0 where
  pub value : Bytes
  pub path : Bytes
  pub max_age : ℤ
  pub http_only : Bool
  pub same_site_lax : Bool

-- What a POST to the wallet's server yields, with the status and the whole body of a response.
pub data WalletReply : Type 0 where
  not_created not_sent not_read : Error → WalletReply
  replied : ℕ → Bytes → WalletReply

-- What all pages show.
pub record Common : Type 0 where
  pub active_nav : Bytes
  pub network : Bytes
  pub account_id : Bytes

-- The orders in which the goroutines of a request run.
pub record Schedule : Type 0 where
  pub states_order : List ℕ
  pub views_order : List ℕ
  pub yes_first : Bool

module _ (P : Platform) where
  open P use {floats}

  -- What the handlers call beside the services.
  pub record Web : Type 1 where
    -- a GET of the IPFS gateway, and its pauses
    pub get_content : Bytes → P.World → Answer × P.World
    pub pause : ℕ → P.World → Option Error × P.World
    -- `json.Unmarshal` into a `MarketMetadata`
    pub unmarshal_metadata : Bytes → Result MarketMetadata
    -- the `Path` of `url.Parse`
    pub url_path : Bytes → Result Bytes
    -- `Format("15:04")` of a time
    pub clock : ℕ → Bytes
    -- the JSON of {"uri": …}, the exchange with the wallet's server, and the "url" of its answer
    pub marshal_uri : Bytes → Result Bytes
    pub post_wallet : Bytes → Bytes → P.World → WalletReply × P.World
    pub unmarshal_wallet : Bytes → Result Bytes

  pub record MarketView : Type 0 where
    pub id : Bytes
    pub question : Bytes
    pub description : Bytes
    pub price_yes : floats.Float
    pub price_no : floats.Float
    pub yes_sold : floats.Float
    pub no_sold : floats.Float
    pub is_resolved : Bool
    pub resolution : Bytes
    pub liquidity_param : floats.Float
    pub metadata_hash : Bytes
    pub metadata_error : Bytes

  pub record MarketPage : Type 0 where
    pub market : Market floats
    pub oracle_public_key : Bytes
    pub price_chart : Bytes
    pub trade_events : List (TradeEvent P)
    pub events_error : Bytes
    pub user_balance : Option (UserBalance P)
    pub balance_error : Bytes

  pub record OutcomePage : Type 0 where
    pub market : Market floats
    pub outcome : Outcome
    pub outcome_price : floats.Float
    pub og_title : Bytes
    pub og_description : Bytes
    pub user_balance : Option (UserBalance P)
    pub balance_error : Bytes
    pub network_passphrase : Bytes

  pub record OraclePage : Type 0 where
    pub oracle_public_key : Bytes
    pub default_liquidity_param : floats.Float
    pub factory_contract : Bytes
    pub markets : List MarketView
    pub markets_error : Bytes

  -- A template with its data: the markets, with the oracle's key and an error if there is one; a
  -- market; a quote of a contract; a transaction of a market, with the network's passphrase; the page
  -- of an outcome; the oracle's page; an error.
  pub data Page : Type 0 where
    markets_page : List MarketView → Bytes → Option Bytes → Common → Page
    market_page : MarketPage → Common → Page
    quote_page : Quote P → Bytes → Common → Page
    transaction_page : TransactionResult → Bytes → Bytes → Common → Page
    outcome_page : OutcomePage → Common → Page
    oracle_page : OraclePage → Common → Page
    error_page : ErrorResponse → Common → Page

  -- What a handler asks of the response's writer: `http.Error`, a page, the page of an error with the
  -- error's status, a redirect with a cookie if one is set, JSON with an error, a quote or what the
  -- wallet's server sent, or a text. A handler that panics aborts the response.
  pub data Reply : Type 0 where
    http_error : Bytes → ℕ → Reply
    page : Page → Reply
    error_reply : ErrorResponse → Common → Reply
    redirect : Option SetCookie → Bytes → ℕ → Reply
    json_error : String → ℕ → Reply
    json_quote : floats.Float → floats.Float → Reply
    json_body : Bytes → Reply
    ok_text : Bytes → Reply
    aborted : Reply

  -- `accountIDFromCookie`
  unfoldable pub account_id_from_cookie : Request → Bytes
  account_id_from_cookie r = elim r.cookie [
    | none ↦ []
    | some value ↦
        if is_empty value then [] else elim (P.parse_address value) [ none ↦ value | some e ↦ [] ]
  ]

  module _ (W : Web) where
    abbrev pub gateway_of : Gateway
    gateway_of = record { World = P.World; get = W.get_content; pause = W.pause }

    -- `MarketHandler`, without its templates and its logger; the cache of states is a part of the
    -- factory service.
    pub record MarketHandler : Type 0 where
      pub market_service : MarketService
      pub factory_service : Option (FactoryService P)
      pub state_cache : StateCache P
      pub event_service : Option (EventService P)
      pub ipfs_client : Option (IpfsClient gateway_of P.quote)
      pub oracle_public_key : Bytes
      pub network_passphrase : Bytes

    abbrev pub common : MarketHandler → Request → String → Common
    common h r nav = record {
      active_nav = text nav;
      network = network_name h.network_passphrase;
      account_id = account_id_from_cookie r;
    }

    -- `writeError`
    unfoldable pub write_error : MarketHandler → Request → Error → Reply
    unfolding account_id_from_cookie
    write_error h r e = error_reply (map_error e) (common h r "")

    -- `if err != nil { h.writeError(…); return }` after a call, and the page of its result.
    abbrev pub finish :
        {A : Type 0} → MarketHandler → Request → Result A × State P → (A → Page) → Reply × State P
    finish h r (ok a, s) show = (page (show a), s)
    finish h r (err e, s) show = (write_error h r e, s)
    finish h r (both a e, s) show = (write_error h r e, s)

  -- `cookieMaxAge`, ten years
  abbrev pub cookie_max_age : ℤ
  cookie_max_age = pos (10 * 365 * 24 * 3600)

  -- `setAccountIDCookie`
  unfoldable pub set_account_id_cookie : Bytes → SetCookie
  set_account_id_cookie account_id = record {
    value = account_id;
    path = text "/";
    max_age = cookie_max_age;
    http_only = Bool.true;
    same_site_lax = Bool.true;
  }
