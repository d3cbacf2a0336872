-- ===== src/Handler/Account.antt =====
-- internal/handler/market.go: the account's cookie, the health check, the quotes and the wallet's
-- link in JSON.
pub mod Laws
use total.Prelude.{
  ℕ, Bool, true, false, ◌||◌, not, ◌&&◌, Option, none, some, [], inl, inr, take, length, ltb, leb,
  ◌*◌, ◌^◌, if◌then◌else◌,
}
use total.Prelude.Int.{ℤ, pos, negsuc}
use total.Bytes.{Bytes, text, is_empty, has_prefix, trim_space}
use total.Errors.{Error, Result, ok, err, both, value?}
use total.Config.{is_testnet}
use total.Soroban.Client.{State}
use total.Service.Amount.{scale}
use total.Service.Quotes.{Quote, get_quote}
use total.Handler.ErrorCode.{bad_request, internal_server_error, bad_gateway}
use total.Handler.Web.{
  Request, Web, MarketHandler, SetCookie, set_account_id_cookie, WalletReply, not_created, not_sent,
  not_read, replied, Reply, http_error, redirect, json_error, json_quote, json_body, ok_text,
}
use total.Handler.Forms.{Form, then_form, require_outcome, require_positive}
use total.Platform.{Platform}

-- The cookie that clears the account.
abbrev pub cleared_cookie : SetCookie
cleared_cookie = record {
  value = [];
  path = text "/";
  max_age = negsuc 0;
  http_only = false;
  same_site_lax = false;
}

abbrev pub see_other : ℕ
see_other = 303

abbrev pub moved_permanently : ℕ
moved_permanently = 301

abbrev pub mtl_wallet_api : Bytes
mtl_wallet_api = text "https://eurmtl.me/remote/sep07/add"

abbrev pub max_wallet_uri_len : ℕ
max_wallet_uri_len = 64 * 1024

abbrev pub uri_prefix : Bytes
uri_prefix = text "web+stellar:tx?"

module _ (P : Platform) (W : Web P) where
  open P use {floats}

  -- Where `handleSetAccount` goes back to.
  unfoldable pub redirect_target : Request → Bytes
  redirect_target r =
      if is_empty r.referer then text "/" else elim (value? (W.url_path r.referer)) [
        | none ↦ text "/"
        | some path ↦ if is_empty path then text "/" else path
      ]

  unfoldable pub handle_set_account : Request → State P → Reply P × State P
  unfolding redirect_target
  handle_set_account r s = elim r.form_error [
    | some e ↦ (http_error (text "Invalid form data") bad_request, s)
    | none ↦
        let account_id = trim_space (r.form "account_id") in
        if is_empty account_id
        then (redirect (some cleared_cookie) (redirect_target r) see_other, s)
        else elim (P.parse_address account_id) [
          | some e ↦ (http_error (text "Invalid Stellar public key") bad_request, s)
          | none ↦ (
            redirect (some (set_account_id_cookie P account_id)) (redirect_target r) see_other,
            s,
          )
        ]
  ]

  unfoldable pub handle_redirect_to_oracle : State P → Reply P × State P
  handle_redirect_to_oracle s = (redirect none (text "/oracle") moved_permanently, s)

  unfoldable pub handle_health : State P → Reply P × State P
  handle_health s = (ok_text (text "OK"), s)

  abbrev pub quote_reply : Result (Quote P) × State P → Reply P × State P
  quote_reply (ok q, s) =
      (json_quote (floats.div (floats.of_int q.cost) (scale floats)) q.price_after, s)
  quote_reply (err e, s) = (json_error "quote unavailable" bad_gateway, s)
  quote_reply (both q e, s) = (json_error "quote unavailable" bad_gateway, s)

  unfoldable pub handle_api_quote : MarketHandler P W → Request → State P → Reply P × State P
  handle_api_quote h r s =
      if is_empty r.path_id
      then (json_error "contract ID required" bad_request, s)
      else elim (require_outcome (r.form "outcome")) [
        | inl m ↦ (json_error "invalid outcome" bad_request, s)
        | inr outcome ↦ elim (require_positive P "invalid amount" (r.form "amount")) [
          | inl m ↦ (json_error "invalid amount" bad_request, s)
          | inr amount ↦ quote_reply (get_quote P h.market_service r.path_id outcome amount s)
        ]
      ]

  -- What the wallet's server answers is passed on if it is JSON with no address or a safe one.
  unfoldable pub forward_wallet : ℕ → Bytes → Reply P
  forward_wallet status body =
      if leb 400 status
      then json_error "MTL Wallet returned an error" bad_gateway
      else elim (value? (W.unmarshal_wallet body)) [
        | none ↦ json_error "unexpected wallet response" bad_gateway
        | some url ↦
            if not (is_empty url) && not (has_prefix url (text "https://"))
            then json_error "unexpected wallet response" bad_gateway
            else json_body body
      ]

  -- Of a body 64 KB are read at most.
  unfoldable pub wallet_reply : WalletReply → Reply P
  unfolding forward_wallet
  wallet_reply (not_created e) = json_error "internal error" internal_server_error
  wallet_reply (not_sent e) = json_error "MTL Wallet is temporarily unavailable" bad_gateway
  wallet_reply (not_read e) = json_error "failed to read wallet response" bad_gateway
  wallet_reply (replied status body) = forward_wallet status (take (2 ^ 16) body)

  unfoldable pub handle_mtl_wallet : MarketHandler P W → Request → State P → Reply P × State P
  unfolding wallet_reply
  handle_mtl_wallet h r s =
      let uri = r.form "uri" in
      if is_testnet h.network_passphrase
      then (json_error "MTL Wallet is only available on mainnet" bad_request, s)
      else if is_empty uri || not (has_prefix uri uri_prefix)
      then (json_error "invalid Stellar URI" bad_request, s)
      else if ltb max_wallet_uri_len (length uri)
      then (json_error "URI too large" bad_request, s)
      else elim (value? (W.marshal_uri uri)) [
        | none ↦ (json_error "internal error" internal_server_error, s)
        | some body ↦
            let (x, w) = W.post_wallet mtl_wallet_api body s.world in
            (wallet_reply x, record s { world = w })
      ]
