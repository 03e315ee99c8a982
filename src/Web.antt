-- ===== src/Web.antt =====
-- What the servers of internal/exporter/ and cmd/local/main.go use of net/http.
pub mod Serving
pub mod Routes
use koprobe.Prelude.{ℕ, Text, codes, text_eq, none, some, List, [], ◌∷◌, ◌++◌}
use koprobe.GoMap.{lookup}

-- The method, the path, and what `r.URL.Query().Get` gives.
pub record Request : Type 0 where
  pub method : Text
  pub path : Text
  pub query : Text → Text

-- What a handler writes to: the headers set so far, the status, and the body.
pub record Response : Type 0 where
  pub headers : List (Text × Text)
  pub status : ℕ
  pub body : Text

abbrev pub Handler : Type 0
Handler = Request → Response → Response

-- a response that nothing has been written to
abbrev pub fresh : Response
fresh = record { headers = []; status = 200; body = [] }

-- `http.ServeMux` for patterns that are whole paths: the handler of the path, and where there is none
-- what the library answers, a redirection or that nothing is found
unfoldable pub serve_mux : Handler → List (Text × Handler) → Handler
serve_mux unmatched routes req w = elim (lookup req.path routes) [
  | none ↦ unmatched req w
  | some handler ↦ handler req w
]

-- `writeJSON`, where the value is encoded already
unfoldable pub write_json : Text → Response → Response
write_json value w = record w {
  headers = w.headers ++ ((codes "Content-Type", codes "application/json") ∷ []);
  body = w.body ++ value;
}

-- `fmt.Fprint(w, "ok")`
unfoldable pub write_ok : Response → Response
write_ok w = record w { body = w.body ++ codes "ok" }
