-- ===== src/Http/Guards.antt =====
-- internal/auth/middleware.go in front of the routes of internal/httpapi/router.go.
use interactive_whatsapp_meo.Base.{
  String, ◌≡◌, refl, ◌∙◌, ap, sym, ◌⊎◌, inl, inr, true, false, none, some, arith, Error, ok, err,
  wrap, str_eq, is_some, Bool-cases, Option-cases,
}
use text.Mathlib.TextEquality.{eq_iff}
use interactive_whatsapp_meo.Base.Text.{is_empty, trim_space}
use interactive_whatsapp_meo.Store.Models.{ApiKey}
use interactive_whatsapp_meo.Store.Table.{find}
use interactive_whatsapp_meo.Store.Db.{Db, take_turn, take_turn-IsTurn, sql_fault, sql_done}
use interactive_whatsapp_meo.Store.ApiKeys.{has_hash, bootstrap, validate}
use interactive_whatsapp_meo.Store.ApiKeys.Bootstrap.{bootstrap-has_hash}
use interactive_whatsapp_meo.Whatsapp.Jid.{JidLib}
use interactive_whatsapp_meo.Sessions.World.{World}
use interactive_whatsapp_meo.Http.Types.{Request, Response, Server, Handler}
use interactive_whatsapp_meo.Http.Routes.{Endpoint, is_protected, authenticate, handle, serve}

-- The database answers whether the key is known, or the call fails.
module _ (hash : String → String) (key : String) (db : Db) where
  validate_fault :
      (e : Error)
      → (take_turn db).0 ≡ some e
      → validate hash key db ≡ (err (wrap "validate api key" e), (take_turn db).1)
  unfolding validate
  validate_fault e fault =
      ground (arith, sql_fault (λ (d : Db). (ok (has_hash (hash key) d), d)) db e fault)

  validate_done :
      (take_turn db).0 ≡ none
      → validate hash key db ≡ (ok (has_hash (hash key) db), (take_turn db).1)
  unfolding validate
  validate_done quiet =
      ground (arith, sql_done (λ (d : Db). (ok (has_hash (hash key) d), d)) db quiet)
      ∙ ap
          (λ keys. (
            ok (is_some (find (λ (k : ApiKey). str_eq k.key_hash (hash key)) keys)),
            (take_turn db).1,
          ))
          (take_turn-IsTurn db).api_keys

module _ {lib : JidLib} (server : Server lib) where
  -- The world after the statement that looks for a key.
  abbrev pub asked : World lib → World lib
  asked w = record w { db = (take_turn w.db).1 }

  -- How a request ends at the middleware.
  pub data Served (next : Handler lib) (r : Request) (w : World lib) (out : Response × World lib)
      : Type 0 where
    refused :
        (out.0.status ≡ 401) ⊎ (out.0.status ≡ 500)
        → (out.1 ≡ w) ⊎ (out.1 ≡ asked w)
        → Served next r w out
    passed :
        is_empty (trim_space r.api_key) ≡ false
        → has_hash (server.hash (trim_space r.api_key)) w.db ≡ true
        → out ≡ next (asked w)
        → Served next r w out

  pub authenticate-Served :
      (next : Handler lib) (r : Request) (w : World lib)
      → Served next r w (authenticate server r next w)
  unfolding authenticate
  authenticate-Served next r w = elim (Bool-cases (is_empty (trim_space r.api_key))) [
    | inl blank ↦ refused (inl (ground arith)) (inl (ground arith))
    | inr full ↦ elim (Option-cases (take_turn w.db).0) [
      | inr (e, fault) ↦
          refused
            (inr (
              ground (arith, full, validate_fault server.hash (trim_space r.api_key) w.db e fault)))
            (inr (
              ground (arith, full, validate_fault server.hash (trim_space r.api_key) w.db e fault)))
      | inl quiet ↦ elim (Bool-cases (has_hash (server.hash (trim_space r.api_key)) w.db)) [
        | inl known ↦ passed full known (
            ground
              (arith, full, known, validate_done server.hash (trim_space r.api_key) w.db quiet))
        | inr unknown ↦
            refused
              (inl (
                ground (
                  arith,
                  full,
                  unknown,
                  validate_done server.hash (trim_space r.api_key) w.db quiet,
                )))
              (inr (
                ground (
                  arith,
                  full,
                  unknown,
                  validate_done server.hash (trim_space r.api_key) w.db quiet,
                )))
      ]
    ]
  ]

  -- A protected route either refuses with 401 or 500, and nothing but the clock and the script of
  -- the database has changed; or the key of the request, trimmed, is not empty and has its hash in
  -- the table, and the answer is the handler's, in the world after the one statement.
  pub serve-Served :
      (endpoint : Endpoint) (r : Request) (w : World lib)
      → is_protected endpoint ≡ true
      → Served (handle server endpoint r) r w (serve server endpoint r w)
  unfolding serve
  serve-Served endpoint r w guarded =
      rw (guarded, serve) (authenticate-Served (handle server endpoint r) r w)

  -- A known key passes, when the statement does not fail.
  pub authenticate_known :
      (next : Handler lib) (r : Request) (w : World lib)
      → is_empty (trim_space r.api_key) ≡ false
      → has_hash (server.hash (trim_space r.api_key)) w.db ≡ true
      → (take_turn w.db).0 ≡ none
      → authenticate server r next w ≡ next (asked w)
  unfolding authenticate
  authenticate_known next r w full known quiet =
      ground (arith, full, known, validate_done server.hash (trim_space r.api_key) w.db quiet)

  -- What `main` writes at the start lets its key through: after a `Bootstrap` that succeeded with a
  -- key that is not blank, a request to a protected route with the same key, blanks around it
  -- aside, gets the handler's answer, if the statement that looks for the key does not fail.
  pub bootstrap-serve :
      (given : String) (endpoint : Endpoint) (r : Request) (w w' : World lib)
      → is_protected endpoint ≡ true
      → is_empty (trim_space given) ≡ false
      → trim_space r.api_key ≡ trim_space given
      → bootstrap server.hash given w.db ≡ (ok tt, w'.db)
      → (take_turn w'.db).0 ≡ none
      → serve server endpoint r w' ≡ handle server endpoint r (asked w')
  unfolding serve
  bootstrap-serve given endpoint r w w' guarded full same started quiet =
      let known : has_hash (server.hash (trim_space given)) w'.db ≡ true =
        ap (λ o. has_hash (server.hash (trim_space given)) o.1) (sym started)
        ∙ bootstrap-has_hash server.hash (server.hash (trim_space given)) given w.db full
            (ap (λ o. o.0) started)
        ∙ ground (
          arith,
          (eq_iff (server.hash (trim_space given)) (server.hash (trim_space given))).1 refl,
        ) in
      rw (guarded, serve)
        (authenticate_known (handle server endpoint r) r w' (rw same full) (rw same known) quiet)
