-- ===== src/Handler/Writer.antt =====
-- internal/handler/market.go: how a reply is written. A `ResponseWriter` takes the first status it is
-- given, 200 if a body comes first, and a header that is set later has no effect.
pub mod Laws
use total.Prelude.{ℕ, String, Option, none, some, [], ◌++◌, if◌then◌else◌}
use total.Bytes.{Bytes, text, is_empty}
use total.Errors.{Error}
use total.Handler.ErrorCode.{internal_server_error}
use total.Handler.Web.{
  Page, error_page, Reply, http_error, page, error_reply, redirect, json_error, json_quote,
  json_body, ok_text, aborted, SetCookie,
}
use total.Platform.{Platform}

pub record Writer : Type 0 where
  pub status : Option ℕ
  pub content_type : Bytes
  pub location : Bytes
  pub cookie : Option SetCookie
  pub body : Bytes

abbrev pub new_writer : Writer
new_writer = record { status = none; content_type = []; location = []; cookie = none; body = [] }

-- `w.WriteHeader(code)`
unfoldable pub write_header : ℕ → Writer → Writer
write_header code w = elim w.status [ none ↦ record w { status = some code } | some c ↦ w ]

-- `w.Write(b)`
unfoldable pub write : Bytes → Writer → Writer
unfolding write_header
write b w = let w' = write_header 200 w in record w' { body = w'.body ++ b }

-- `w.Header().Set("Content-Type", t)`
unfoldable pub set_type : Bytes → Writer → Writer
set_type t w = elim w.status [ none ↦ record w { content_type = t } | some c ↦ w ]

-- `http.Error(w, message, code)`
unfoldable pub write_http_error : Bytes → ℕ → Writer → Writer
unfolding write set_type
write_http_error message code w =
    write (message ++ text "\n") (write_header code (set_type (text "text/plain; charset=utf-8") w))

-- The status that a client sees.
unfoldable pub final_status : Writer → ℕ
final_status w = elim w.status [ none ↦ 200 | some code ↦ code ]

abbrev pub json : Bytes
json = text "application/json"

module _ (P : Platform)
    -- `tmpl.Render`: what is written, and an error if there is one.
    (render : Page P → Bytes × Option Error)
    -- The JSON of {"error": …}, and of a quote.
    (encode_error : String → Bytes) (encode_quote : P.floats.Float → P.floats.Float → Bytes) where
  -- What a template writes; nothing at all, if it fails at once.
  abbrev pub write_page : Page P → Writer → Writer
  write_page p w = if is_empty (render p).0 then w else write (render p).0 w

  -- The end of the handlers: a template that fails is logged and answered with 500, which has no
  -- effect where a part of the page has been written.
  unfoldable pub render_page : Page P → Writer → Writer
  unfolding write write_http_error
  render_page p w = elim (render p).1 [
    | none ↦ write_page p w
    | some e ↦
        write_http_error (text "Internal Server Error") internal_server_error (write_page p w)
  ]

  -- `writeJSONError`
  unfoldable pub write_json_error : String → ℕ → Writer → Writer
  unfolding write set_type
  write_json_error message code w =
      write (encode_error message) (write_header code (set_type json w))

  -- The writer when a handler has returned; `none` where it panicked.
  unfoldable pub send : Reply P → Writer → Option Writer
  unfolding render_page write_json_error
  send (http_error message code) w = some (write_http_error message code w)
  send (page p) w = some (render_page p w)
  send (error_reply e shown) w = some (write_page (error_page e shown) (write_header e.status w))
  send (redirect cookie url code) w =
      some (write_header code (record w { cookie = cookie; location = url }))
  send (json_error message code) w = some (write_json_error message code w)
  send (json_quote cost price) w = some (write (encode_quote cost price) (set_type json w))
  send (json_body b) w = some (write b (set_type json w))
  send (ok_text b) w = some (write b (write_header 200 w))
  send aborted w = none
