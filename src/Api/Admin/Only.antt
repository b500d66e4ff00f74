-- ===== src/Api/Admin/Only.antt =====
-- internal/api/server.go: the accounts that an administrator makes.
use shclop.Store.Users.{create_user}
use shclop.Prelude.Text.{trim_space}
use shclop.Prelude.{
  subst, ◌||◌, ◌==◌, inr, inl, Bool-cases, true, refl, none, some, Option, ℕ, String, ◌≡◌, ◌≢◌,
  arith, eq_iff,
}
use shclop.Domain.{User}
use shclop.Store.Memory.{Result-cases, ok, Result, Call}
use shclop.Api.Server.{Flow-cases, Flow, record_activity, of_user, Server, Response, go, done}
use shclop.Api.Access.{require_user, require_admin}
use shclop.Api.Access.Current.{require_user_status, require_user_go}
use shclop.Api.Admin.{
  CreateUserRequest, post_user, create_user_as, default_role, is_role, handle_admin,
  handle_admin_create_user,
}

-- An account made by an administrator, from the request that asked for it.
abbrev pub IsCreatedBy :
    (String → Result String)
    → (ℕ → Call)
    → Option CreateUserRequest
    → Server
    → Server
    → Response
    → Type 0
IsCreatedBy hash_password at body before after answer =
    (request : CreateUserRequest) × (hash : String) × (created : User) × (body ≡ some request)
    × (trim_space request.username ≢ "")
    × (hash_password request.password ≡ ok hash)
    × (is_role (default_role (trim_space request.role)) ≡ true)
    × (create_user (at 1) (trim_space request.username) hash
          (default_role (trim_space request.role)) before.store
        ≡ (ok created, after.store))
    × (answer.body ≡ of_user created)

create_user_as_sound :
    (hash_password : String → Result String) (at : ℕ → Call) (body : Option CreateUserRequest)
    (u : User) (s : Server) {r : Response}
    → (create_user_as hash_password at body u s).0 ≡ done r
    → r.status ≡ 201
    → IsCreatedBy hash_password at body s (create_user_as hash_password at body u s).1 r
unfolding create_user_as record_activity
create_user_as_sound hash_password at none u s h status = absurd (ground (arith, h, status))
create_user_as_sound hash_password at (some request) u s {r} h status =
    let username = trim_space request.username in
    let role = default_role (trim_space request.role) in
    elim (Bool-cases (username == "" || request.password == "")) [
      | inl blank ↦ absurd (ground (arith, blank, h, status))
      | inr given ↦ elim (Bool-cases (is_role role)) [
        | inr odd ↦ absurd (ground (arith, given, odd, h, status))
        | inl good ↦ elim (Result-cases (hash_password request.password)) [
          | inr (e, failed) ↦ absurd (ground (arith, given, good, failed, h, status))
          | inl (hash, hashed) ↦
              elim (Result-cases (create_user (at 1) username hash role s.store).0) [
                | inr (e, refused) ↦
                    absurd (ground (arith, given, good, hashed, refused, h, status))
                | inl (created, made) ↦ (
                  request,
                  hash,
                  created,
                  refl,
                  ground (arith, given, eq_iff username ""),
                  hashed,
                  good,
                  rw (given, good, hashed, made) refl,
                  ground (arith, given, good, hashed, made, h),
                )
              ]
        ]
      ]
    ]

require_admin_sound :
    (u : User) (s : Server)
    → (require_admin u s).0 ≡ go tt
    → (require_admin u s ≡ (go tt, s)) × (u.role ≡ "admin")
unfolding require_admin
require_admin_sound u s h = (ground arith, ground (arith, eq_iff u.role "admin"))

require_admin_status :
    (u : User) (s : Server) {r : Response} → (require_admin u s).0 ≡ done r → r.status ≡ 403
unfolding require_admin
require_admin_status u s h = ground arith

-- When a request for a new account is answered with 201, an administrator made it, with a name, a
-- password that hashed and one of the two roles, the store created the account under that name and
-- role, and the answer is this account.
pub post_user_sound :
    (hash_password : String → Result String) (at : ℕ → Call) (authorization : String)
    (body : Option CreateUserRequest) (s : Server) {r : Response}
    → (handle_admin hash_password at authorization (post_user body) s).0 ≡ done r
    → r.status ≡ 201
    → ((u : User) × ((require_user (at 0) authorization s).0 ≡ go u) × (u.role ≡ "admin"))
      × IsCreatedBy hash_password at body s
          (handle_admin hash_password at authorization (post_user body) s).1
          r
unfolding handle_admin handle_admin_create_user
post_user_sound hash_password at authorization body s {r} h status =
    elim (Flow-cases (require_user (at 0) authorization s).0) [
      | inr (x, e) ↦
          absurd (ground (arith, require_user_status (at 0) authorization s e, e, h, status))
      | inl (u, e) ↦
          let who = require_user_go (at 0) authorization s e in
          elim (Flow-cases (require_admin u s).0) [
            | inr (x, f) ↦ absurd (ground (arith, require_admin_status u s f, who, f, h, status))
            | inl (y, f) ↦
                let (passed, role) = require_admin_sound u s f in
                let rest : handle_admin hash_password at authorization (post_user body) s
                    ≡ create_user_as hash_password at body u s =
                  rw (who, passed) refl in
                (
                  (u, e, role),
                  rw rest (
                      create_user_as_sound hash_password at body u s
                        (subst (λ (p : Flow (Unit {0}) × Server). p.0 ≡ done r) rest h) status),
                )
          ]
    ]
