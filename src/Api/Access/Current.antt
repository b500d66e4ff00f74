-- ===== src/Api/Access/Current.antt =====
-- internal/api/server.go: the account for which a request acts.
use shclop.Prelude.{
  eq_iff, ◌⊎◌, String, ◌≡◌, true, false, Option, none, some, arith, ◌==◌, Option-cases, Bool-cases,
  inl, inr,
}
use shclop.Prelude.Text.{trim_space, strip_prefix}
use shclop.Prelude.Lists.{find_first, find_first-update_first, find_first-holds}
use shclop.Domain.{Agent, User}
use shclop.Store.Memory.{ok, Call, Result-cases}
use shclop.Store.Users.{get_user, update_user, user_with_id, edit_user}
use shclop.Auth.{resolve}
use shclop.Store.Agents.{get_agent}
use shclop.Api.Server.{Server, Response, go, done, plain}
use shclop.Api.Access.{own_agent, require_user, enforce_current_user}

-- The answer to a request without a usable session.
abbrev pub Unauthorized : Response
Unauthorized = record { status = 401; body = plain "unauthorized" }

current_sound :
    (c : Call) (cached : User) (s : Server) {u : User}
    → (enforce_current_user c cached s).0 ≡ go u
    → (u.disabled ≡ false) × ((get_user c cached.id s.store).0 ≡ ok u)
unfolding enforce_current_user
current_sound c cached s {u} h = elim (Result-cases (get_user c cached.id s.store).0) [
  | inr (e, failed) ↦ absurd (ground arith)
  | inl (v, there) ↦ (ground arith, ground arith)
]

-- When a request is let through as some user, its header is a bearer token that is a session, and the
-- user is the account of that session as the store has it now, not disabled.
pub require_user_sound :
    (c : Call) (authorization : String) (s : Server) {u : User}
    → (require_user c authorization s).0 ≡ go u
    → (u.disabled ≡ false)
      × ((rest : String) × (cached : User) × (strip_prefix "Bearer " authorization ≡ some rest)
          × (resolve (trim_space rest) s.sessions ≡ some cached)
          × ((get_user c cached.id s.store).0 ≡ ok u))
unfolding require_user
require_user_sound c authorization s {u} h =
    elim (Option-cases (strip_prefix "Bearer " authorization)) [
      | inl none_given ↦ absurd (ground arith)
      | inr (rest, given) ↦ elim (Bool-cases (trim_space rest == "")) [
        | inl blank ↦ absurd (ground arith)
        | inr token ↦ elim (Option-cases (resolve (trim_space rest) s.sessions)) [
          | inl unknown ↦ absurd (ground arith)
          | inr (cached, known) ↦
              let (enabled, there) = current_sound c cached s {u = u} (ground arith) in
              (enabled, (rest, cached, given, known, there))
        ]
      ]
    ]

-- Letting a request through or turning it away changes nothing.
pub require_user_reads :
    (c : Call) (authorization : String) (s : Server) → (require_user c authorization s).1 ≡ s
unfolding require_user get_user
require_user_reads c authorization s = ground arith

-- Once the store has disabled an account, a request whose bearer token is a session of that account, also
-- one that was opened before, is answered with 401, unless the request's context has ended.
pub disabled_locked_out :
    (c c' : Call) (user_id : String) (role : Option String) (s : Server)
    (authorization rest : String) {u cached : User}
    → (update_user c user_id (some true) role s.store).0 ≡ ok u
    → c'.ctx_err ≡ none
    → strip_prefix "Bearer " authorization ≡ some rest
    → resolve (trim_space rest) s.sessions ≡ some cached
    → cached.id ≡ user_id
    → (require_user c' authorization
        (record s { store = (update_user c user_id (some true) role s.store).1 })).0
      ≡ done Unauthorized
unfolding require_user update_user get_user
disabled_locked_out c c' user_id role s authorization rest {u} {cached} updated live given known e =
    elim (Option-cases (find_first (user_with_id user_id) s.store.users)) [
      | inl absent ↦ absurd (ground arith)
      | inr (old, there) ↦ ground (
        arith,
        there,
        find_first-update_first (user_with_id user_id) (edit_user c.now (some true) role)
            s.store.users {a = old} there
            (find_first-holds (user_with_id user_id) s.store.users there),
      )
    ]

pub require_user_go :
    (c : Call) (authorization : String) (s : Server) {u : User}
    → (require_user c authorization s).0 ≡ go u
    → require_user c authorization s ≡ (go u, s)
require_user_go c authorization s h = λ i. (h i, require_user_reads c authorization s i)

-- A request is turned away with 401, or with 500 where the store fails.
pub require_user_status :
    (c : Call) (authorization : String) (s : Server) {r : Response}
    → (require_user c authorization s).0 ≡ done r
    → (r.status ≡ 401) ⊎ (r.status ≡ 500)
unfolding require_user get_user
require_user_status c authorization s h = ground arith

pub own_agent_reads :
    (c : Call) (u : User) (agent_id : String) (s : Server) → (own_agent c u agent_id s).1 ≡ s
unfolding own_agent get_agent
own_agent_reads c u agent_id s = ground arith

pub own_agent_go :
    (c : Call) (u : User) (agent_id : String) (s : Server) {a : Agent}
    → (own_agent c u agent_id s).0 ≡ go a
    → own_agent c u agent_id s ≡ (go a, s)
own_agent_go c u agent_id s h = λ i. (h i, own_agent_reads c u agent_id s i)

pub own_agent_status :
    (c : Call) (u : User) (agent_id : String) (s : Server) {r : Response}
    → (own_agent c u agent_id s).0 ≡ done r
    → (r.status ≡ 404) ⊎ (r.status ≡ 500)
unfolding own_agent get_agent
own_agent_status c u agent_id s h = ground arith

-- A user who gets at an agent owns it or is an administrator.
pub own_agent_sound :
    (c : Call) (u : User) (agent_id : String) (s : Server) {a : Agent}
    → (own_agent c u agent_id s).0 ≡ go a
    → ((get_agent c agent_id s.store).0 ≡ ok a) × ((a.owner_user_id ≡ u.id) ⊎ (u.role ≡ "admin"))
unfolding own_agent
own_agent_sound c u agent_id s {a} h = elim (Result-cases (get_agent c agent_id s.store).0) [
  | inr (e, failed) ↦ absurd (ground arith)
  | inl (b, there) ↦
      (ground arith, ground (arith, eq_iff b.owner_user_id u.id, eq_iff u.role "admin"))
]
