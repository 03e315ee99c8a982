-- ===== src/Web/Routes.antt =====
-- A table of routes whose handlers all end with `writeJSON`.
use koprobe.Prelude.{
  ◌≡◌, refl, Text, text_eq, ◌==◌, none, some, List, [], ◌∷◌, ◌++◌, map, Bool-cases, inl, inr,
}
use koprobe.GoMap.{lookup}
use koprobe.Web.{Request, Response, Handler, serve_mux, write_json}

module _ {P : Type 0} (encode : P → Text) where
  -- a handler that ends with `writeJSON`
  abbrev pub answering : (Request → P) → Handler
  answering handle req w = write_json (encode (handle req)) w

  abbrev pub answering_all : List (Text × (Request → P)) → List (Text × Handler)
  answering_all table = map (λ e. (e.0, answering e.1)) table

  -- the page of each path
  abbrev pub pages_of : Request → List (Text × (Request → P)) → List (Text × P)
  pages_of req table = map (λ e. (e.0, e.1 req)) table

  -- `ServeMux` on a table of pages, and further routes after it
  pub serve_mux-pages :
      (unmatched : Handler) (req : Request) (w : Response) (table : List (Text × (Request → P)))
      (others : List (Text × Handler))
      → serve_mux unmatched (answering_all table ++ others) req w
        ≡ (elim (lookup req.path (pages_of req table)) [
          | none ↦ serve_mux unmatched others req w
          | some page ↦ write_json (encode page) w
        ])
  unfolding serve_mux lookup
  serve_mux-pages unmatched req w [] others = refl
  serve_mux-pages unmatched req w ((path, handle) ∷ table) others =
      elim (Bool-cases (path == req.path)) [
        | inl e ↦ rw (serve_mux, e) refl
        | inr e ↦ rw (serve_mux, e) (serve_mux-pages unmatched req w table others)
      ]
