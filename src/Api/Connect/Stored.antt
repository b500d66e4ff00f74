-- ===== src/Api/Connect/Stored.antt =====
-- internal/api/server.go: what an accepted connection and an accepted switch leave in the store.
use shclop.Api.Connect.{handle_connect_integration, connect_as, is_empty, fields_of, ConnectRequest}
use shclop.Api.Access.Current.{require_user_sound, require_user_status, require_user_go}
use shclop.Api.Access.{require_user}
use shclop.Api.Server.{record_activity, of_connection, done, go, Response, Server, Flow-cases, Flow}
use shclop.Store.Settings.{or_empty}
use shclop.Store.Connections.Lookup.{get-upsert}
use shclop.Store.Connections.{
  connection_of, upsert_integration_connection, get_integration_connection,
}
use shclop.Integrations.{save_connection, connect, or_fail, supported, prepare, Service}
use shclop.Store.Memory.{Result, ok, Call, Result-cases, Memory}
use shclop.Domain.{User, IntegrationConnection}
use shclop.Prelude.Lists.{find_first, find_first-holds}
use shclop.Prelude.Dict.{lookup, Dict}
use shclop.Prelude.{
  false, ℕ, String, ◌≡◌, refl, Option, some, none, arith, eq_iff, ap, ◌∙◌, inl, inr, Option-cases,
  Bool-cases, subst, sym,
}

prepare-key :
    (svc : Service) (user_id provider_id token : String) (fields : Dict String)
    {x : IntegrationConnection}
    → prepare svc user_id provider_id token fields ≡ ok x
    → (x.user_id ≡ user_id) × (x.provider_id ≡ provider_id)
prepare-key svc user_id provider_id token fields {x} h = elim (Option-cases (svc.get provider_id)) [
  | inl unknown ↦ absurd (ground (arith, unknown, h))
  | inr (m, known) ↦
      elim (Result-cases
        (supported m (or_fail "validation failed" (svc.validate m token fields)))) [
          | inr (e, refused) ↦ absurd (ground (arith, known, refused, h))
          | inl (v, valid) ↦ elim (Result-cases (svc.encrypt token)) [
            | inr (e, failed) ↦ absurd (ground (arith, known, valid, failed, h))
            | inl (sealed, encrypted) ↦ (
              ground (arith, known, valid, encrypted, h),
              ground (arith, known, valid, encrypted, h),
            )
          ]
        ]
]

upsert-stored :
    (c c' : Call) (x : IntegrationConnection) (m : Memory) {conn : IntegrationConnection}
    → (upsert_integration_connection c x m).0 ≡ ok conn
    → c'.ctx_err ≡ none
    → (get_integration_connection c' x.user_id x.provider_id
        (upsert_integration_connection c x m).1).0
      ≡ ok conn
unfolding upsert_integration_connection
upsert-stored c c' x m h live' = elim (Option-cases c.ctx_err) [
  | inr (e, ended) ↦ absurd (ground (arith, ended, h))
  | inl live ↦
      get-upsert c c' x x.user_id x.provider_id m live live'
      ∙ ground (arith, eq_iff x.user_id x.user_id, eq_iff x.provider_id x.provider_id, h)
]

connect-stored :
    (svc : Service) (c c' : Call) (user_id provider_id token : String) (fields : Dict String)
    (m : Memory) {conn : IntegrationConnection}
    → (connect svc c user_id provider_id token fields m).0 ≡ ok conn
    → c'.ctx_err ≡ none
    → (get_integration_connection c' user_id provider_id
        (connect svc c user_id provider_id token fields m).1).0
      ≡ ok conn
unfolding connect
connect-stored svc c c' user_id provider_id token fields m {conn} h live' =
    elim (Result-cases (prepare svc user_id provider_id token fields)) [
      | inr (e, failed) ↦ absurd (ground (arith, failed, h))
      | inl (x, prepared) ↦
          let (user, provider) = prepare-key svc user_id provider_id token fields prepared in
          let stored : (upsert_integration_connection c x m).0 ≡ ok conn =
            ground (arith, prepared, h) in
          let opened = ap (λ r. save_connection c r m) prepared in
          ap
            (λ (w : Result IntegrationConnection × Memory).
              (get_integration_connection c' user_id provider_id w.1).0)
            opened
          ∙ rw (← user, ← provider) (upsert-stored c c' x m stored live')
    ]

prepare-secret :
    (svc : Service) (user_id provider_id token : String) (fields : Dict String)
    {x : IntegrationConnection}
    → prepare svc user_id provider_id token fields ≡ ok x
    → svc.encrypt token ≡ ok x.secret
prepare-secret svc user_id provider_id token fields {x} h =
    elim (Option-cases (svc.get provider_id)) [
      | inl unknown ↦ absurd (ground (arith, unknown, h))
      | inr (m, known) ↦
          elim (Result-cases
            (supported m (or_fail "validation failed" (svc.validate m token fields)))) [
              | inr (e, refused) ↦ absurd (ground (arith, known, refused, h))
              | inl (v, valid) ↦ elim (Result-cases (svc.encrypt token)) [
                | inr (e, failed) ↦ absurd (ground (arith, known, valid, failed, h))
                | inl (sealed, encrypted) ↦
                    encrypted ∙ ap ok (ground (arith, known, valid, encrypted, h))
              ]
            ]
    ]

-- What is stored has the secret and the key of what was given.
upsert-kept :
    (c : Call) (x : IntegrationConnection) (m : Memory) {conn : IntegrationConnection}
    → (upsert_integration_connection c x m).0 ≡ ok conn
    → (conn.secret ≡ x.secret) × (conn.provider_id ≡ x.provider_id)
unfolding upsert_integration_connection
upsert-kept c x m h = elim (Option-cases c.ctx_err) [
  | inr (e, ended) ↦ absurd (ground (arith, ended, h))
  | inl live ↦
      elim (Option-cases (find_first (connection_of x.user_id x.provider_id) m.integrations)) [
        | inl free ↦ (ground (arith, live, free, h), ground (arith, live, free, h))
        | inr (old, there) ↦
            let its =
              find_first-holds (connection_of x.user_id x.provider_id) m.integrations there in
            (
              ground (arith, live, there, h),
              ground (arith, live, there, h, its, eq_iff old.provider_id x.provider_id),
            )
      ]
]

connect-kept :
    (svc : Service) (c : Call) (user_id provider_id token : String) (fields : Dict String)
    (m : Memory) {conn : IntegrationConnection}
    → (connect svc c user_id provider_id token fields m).0 ≡ ok conn
    → (svc.encrypt token ≡ ok conn.secret) × (conn.provider_id ≡ provider_id)
unfolding connect
connect-kept svc c user_id provider_id token fields m {conn} h =
    elim (Result-cases (prepare svc user_id provider_id token fields)) [
      | inr (e, failed) ↦ absurd (ground (arith, failed, h))
      | inl (x, prepared) ↦
          let (secret, provider) = upsert-kept c x m {conn = conn} (ground (arith, prepared, h)) in
          (
            prepare-secret svc user_id provider_id token fields prepared ∙ ap ok (sym secret),
            provider ∙ (prepare-key svc user_id provider_id token fields prepared).1,
          )
    ]

-- What the connection of a provider asks for, and what the store has when it was accepted.
abbrev pub IsConnected :
    Service
    → (ℕ → Call)
    → String
    → Option ConnectRequest
    → User
    → Server
    → Server
    → Response
    → Type 0
IsConnected svc at provider_id body u before after answer =
    (request : ConnectRequest) × (conn : IntegrationConnection) × (body ≡ some request)
    × (connect svc (at 1) u.id provider_id (or_empty (lookup "token" (fields_of request)))
          (fields_of request) before.store
        ≡ (ok conn, after.store))
    × (answer.body
        ≡ of_connection (record {
          provider_id = provider_id;
          external_account_id = conn.external_account_id;
          external_login = conn.external_login;
          account_type = conn.account_type;
          status = conn.status;
          revision = conn.revision;
        }))
    × (svc.encrypt (or_empty (lookup "token" (fields_of request))) ≡ ok conn.secret)
    × ((c : Call)
        → c.ctx_err ≡ none
        → (get_integration_connection c u.id provider_id after.store).0 ≡ ok conn)

connect_as_sound :
    (svc : Service) (at : ℕ → Call) (provider_id : String) (body : Option ConnectRequest) (u : User)
    (s : Server) {r : Response}
    → (connect_as svc at provider_id body u s).0 ≡ done r
    → r.status ≡ 200
    → IsConnected svc at provider_id body u s (connect_as svc at provider_id body u s).1 r
unfolding connect_as record_activity
connect_as_sound svc at provider_id none u s h status = absurd (ground (arith, h, status))
connect_as_sound svc at provider_id (some request) u s {r} h status =
    let fields = fields_of request in
    let token = or_empty (lookup "token" fields) in
    elim (Bool-cases (is_empty fields)) [
      | inl blank ↦ absurd (ground (arith, blank, h, status))
      | inr given ↦
          elim (Result-cases (connect svc (at 1) u.id provider_id token fields s.store).0) [
            | inr (e, refused) ↦ absurd (ground (arith, given, refused, h, status))
            | inl (conn, made) ↦ (
              request,
              conn,
              refl,
              rw (given, made) refl,
              ground (
                arith,
                given,
                made,
                h,
                (connect-kept svc (at 1) u.id provider_id token fields s.store made).1,
              ),
              (connect-kept svc (at 1) u.id provider_id token fields s.store made).0,
              λ c live.
                  rw (given, made)
                    (connect-stored svc (at 1) c u.id provider_id token fields s.store made live),
            )
          ]
    ]

-- When a user's connection of a provider is answered with 200: the request was that of an account that
-- is not disabled, the service connected exactly what the request carries, from then on the store has
-- the connection as this user's for this provider, with the token of the request encrypted, and the answer
-- has six fields of the connection, without the secret.
pub connect_integration_sound :
    (svc : Service) (at : ℕ → Call) (authorization provider_id : String)
    (body : Option ConnectRequest) (s : Server) {r : Response}
    → (handle_connect_integration svc at authorization provider_id body s).0 ≡ done r
    → r.status ≡ 200
    → (u : User) × ((require_user (at 0) authorization s).0 ≡ go u)
      × (u.disabled ≡ false)
      × IsConnected svc at provider_id body u s
          (handle_connect_integration svc at authorization provider_id body s).1
          r
unfolding handle_connect_integration
connect_integration_sound svc at authorization provider_id body s {r} h status =
    elim (Flow-cases (require_user (at 0) authorization s).0) [
      | inr (x, e) ↦
          absurd (ground (arith, require_user_status (at 0) authorization s e, e, h, status))
      | inl (u, e) ↦
          let who = require_user_go (at 0) authorization s e in
          let rest : handle_connect_integration svc at authorization provider_id body s
              ≡ connect_as svc at provider_id body u s =
            rw who refl in
          (
            u,
            e,
            (require_user_sound (at 0) authorization s e).0,
            rw rest (
                connect_as_sound svc at provider_id body u s
                  (subst (λ (p : Flow (Unit {0}) × Server). p.0 ≡ done r) rest h) status),
          )
    ]
