-- ===== src/Handler/Writer/Laws.antt =====
-- internal/handler/market.go: the statuses that replies are sent with.
use total.Prelude.{ℕ, String, Option, some, ◌≡◌, ◌⊎◌, refl, arith}
use total.Bytes.{Bytes}
use total.Errors.{Error}
use total.Handler.ErrorMap.Laws.{IsErrorStatus}
use total.Handler.Web.{
  Page, Reply, http_error, page, error_reply, redirect, json_error, json_quote, json_body, ok_text,
  aborted,
}
use total.Handler.Writer.{
  Writer, new_writer, write_header, write, set_type, write_http_error, write_page, render_page,
  write_json_error, send, final_status,
}
use total.Platform.{Platform}

-- The statuses of the program's responses.
abbrev pub IsStatus : ℕ → Type 0
IsStatus n = (n ≡ 200) ⊎ (n ≡ 301) ⊎ (n ≡ 303) ⊎ IsErrorStatus n

module _ (P : Platform) where
  -- A reply that does not abort, whose statuses are among the program's.
  abbrev pub IsAnswer : Reply P → Type 0
  IsAnswer (http_error m n) = IsErrorStatus n
  IsAnswer (page p) = Unit
  IsAnswer (error_reply e shown) = IsErrorStatus e.status
  IsAnswer (redirect cookie url n) = (n ≡ 301) ⊎ (n ≡ 303)
  IsAnswer (json_error m n) = IsErrorStatus n
  IsAnswer (json_quote c q) = Unit
  IsAnswer (json_body b) = Unit
  IsAnswer (ok_text b) = Unit
  IsAnswer aborted = ⊥

  module _ (render : Page P → Bytes × Option Error) (encode_error : String → Bytes)
      (encode_quote : P.floats.Float → P.floats.Float → Bytes) where
    -- A reply that is sent, with a status of the program.
    abbrev pub IsSent : Reply P → Type 0
    IsSent reply =
        (w : Writer) × (send P render encode_error encode_quote reply new_writer ≡ some w)
        × IsStatus (final_status w)

    write_page_status :
        (p : Page P)
        → (final_status (write_page P render encode_error encode_quote p new_writer) ≡ 200)
    unfolding final_status write write_header
    write_page_status p = ground arith

    render_page-IsStatus :
        (p : Page P)
        → IsStatus (final_status (render_page P render encode_error encode_quote p new_writer))
    unfolding render_page final_status write_http_error write write_header set_type
    render_page-IsStatus p = ground arith

    pub send-IsSent : (reply : Reply P) → IsAnswer reply → IsSent reply
    unfolding send final_status write_http_error write write_header set_type write_json_error
    send-IsSent (http_error m n) h = (_, refl, ground (arith, h))
    send-IsSent (page p) h = (_, refl, render_page-IsStatus p)
    send-IsSent (error_reply e shown) h = (_, refl, ground (arith, h))
    send-IsSent (redirect cookie url n) h = (_, refl, ground (arith, h))
    send-IsSent (json_error m n) h = (_, refl, ground (arith, h))
    send-IsSent (json_quote c q) h = (_, refl, ground arith)
    send-IsSent (json_body b) h = (_, refl, ground arith)
    send-IsSent (ok_text b) h = (_, refl, ground arith)
    send-IsSent aborted h = absurd h
