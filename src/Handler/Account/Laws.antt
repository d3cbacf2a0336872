-- ===== src/Handler/Account/Laws.antt =====
-- internal/handler/market.go: what the wallet's link forwards, and the account's cookie.
use total.Prelude.{
  ℕ, true, false, some, inl, inr, ◌≡◌, ◌≤◌, ◌⊎◌, ◌^◌, ◌*◌, refl, sym, arith, Option-cases,
  Bool-cases, length, take, List, [], ◌∷◌, zero, suc,
}
use total.Bytes.{Bytes, text, is_empty, has_prefix, trim_space}
use total.Errors.{value?}
use total.Config.{is_testnet}
use total.Soroban.Client.{State}
use total.Handler.Web.{
  Request, Web, MarketHandler, SetCookie, set_account_id_cookie, account_id_from_cookie,
  WalletReply, not_created, not_sent, not_read, replied, redirect, json_body,
}
use total.Handler.Account.{
  handle_set_account, handle_mtl_wallet, wallet_reply, forward_wallet, mtl_wallet_api, uri_prefix,
}
use total.Platform.{Platform}

is_empty-true : (b : Bytes) → is_empty b ≡ true → b ≡ []
is_empty-true [] e = refl
is_empty-true (c ∷ cs) e = absurd (ground (arith, e))

length-take_bound : {A : Type 0} (n : ℕ) (xs : List A) → length (take n xs) ≤ n
length-take_bound zero xs = omega arith
length-take_bound (suc n) [] = omega arith
length-take_bound (suc n) (x ∷ xs) = omega (arith, length-take_bound n xs)

module _ (P : Platform) (W : Web P) where
  -- A body that may be passed on: JSON, with no address or one that is safe to open.
  abbrev pub IsSafeBody : Bytes → Type 0
  IsSafeBody body =
      (url : Bytes) × (value? (W.unmarshal_wallet body) ≡ some url)
      × ((is_empty url ≡ true) ⊎ (has_prefix url (text "https://") ≡ true))

  forward_wallet-IsSafeBody :
      (status : ℕ) (body : Bytes) {b : Bytes}
      → forward_wallet P W status body ≡ json_body b
      → (body ≡ b) × IsSafeBody body
  unfolding forward_wallet
  forward_wallet-IsSafeBody status body e = elim (Option-cases (value? (W.unmarshal_wallet body))) [
    | inl bad ↦ absurd (ground (arith, e, bad))
    | inr (url, decoded) ↦ (ground (arith, e, decoded), (url, decoded, ground (arith, e, decoded)))
  ]

  wallet_reply-IsSafeBody :
      (x : WalletReply) {b : Bytes}
      → wallet_reply P W x ≡ json_body b
      → IsSafeBody b × (length b ≤ 2 ^ 16)
  unfolding wallet_reply
  wallet_reply-IsSafeBody (not_created e) h = absurd (ground (arith, h))
  wallet_reply-IsSafeBody (not_sent e) h = absurd (ground (arith, h))
  wallet_reply-IsSafeBody (not_read e) h = absurd (ground (arith, h))
  wallet_reply-IsSafeBody (replied status body) h =
      let (same, safe) = forward_wallet-IsSafeBody status (take (2 ^ 16) body) h in
      rw (sym same) (safe, length-take_bound (2 ^ 16) body)

  -- What is passed on of the wallet's server is JSON of at most 64 KB with no address or one that
  -- begins with https://, and the request that it answers was made on the main network, for a
  -- transaction's URI of at most 64 KB.
  pub handle_mtl_wallet-IsSafe :
      (h : MarketHandler P W) (r : Request) (s : State P) {b : Bytes} {t : State P}
      → handle_mtl_wallet P W h r s ≡ (json_body b, t)
      → IsSafeBody b
        × (length b ≤ 2 ^ 16)
        × (is_testnet h.network_passphrase ≡ false)
        × (has_prefix (r.form "uri") uri_prefix ≡ true)
        × (length (r.form "uri") ≤ 64 * 1024)
  unfolding handle_mtl_wallet
  handle_mtl_wallet-IsSafe h r s {b = b} e =
      elim (Option-cases (value? (W.marshal_uri (r.form "uri")))) [
        | inl bad ↦ absurd (ground (arith, e, bad))
        | inr (body, coded) ↦
            let answered : wallet_reply P W (W.post_wallet mtl_wallet_api body s.world).0
                ≡ json_body b =
              ground (arith, e, coded) in
            let (safe, short) =
              wallet_reply-IsSafeBody (W.post_wallet mtl_wallet_api body s.world).0 answered in
            (safe, short, ground (arith, e), ground (arith, e), ground (arith, e))
      ]

  -- The account that a form sets is the one that the next request with the cookie is read as; a form
  -- without an account leaves none.
  pub account_id_from_cookie-handle_set_account :
      (r next : Request) (s : State P) {cookie : SetCookie} {target : Bytes} {code : ℕ}
      {t : State P}
      → handle_set_account P W r s ≡ (redirect (some cookie) target code, t)
      → next.cookie ≡ some cookie.value
      → account_id_from_cookie P next ≡ trim_space (r.form "account_id")
  unfolding handle_set_account account_id_from_cookie set_account_id_cookie
  account_id_from_cookie-handle_set_account r next s e there =
      elim (Bool-cases (is_empty (trim_space (r.form "account_id")))) [
        | inl empty ↦ ground (arith, e, there, empty, is_empty-true _ empty)
        | inr full ↦ ground (arith, e, there, full)
      ]
