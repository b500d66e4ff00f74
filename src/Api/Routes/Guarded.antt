-- ===== src/Api/Routes/Guarded.antt =====
-- internal/api/server.go and oidc.go: who may administer.
use shclop.Prelude.{◌≡◌, ◌⊎◌, refl, inl, inr, String, false, some, ◌==◌, arith, eq_iff, Bool-cases}
use shclop.Prelude.Text.{trim_space, strip_prefix}
use shclop.Domain.{User}
use shclop.Store.Memory.{ok, Call}
use shclop.Store.Users.{get_user}
use shclop.Auth.{resolve}
use shclop.Api.Server.{
  Server, Response, Flow, Flow-cases, Handler, done, plain, respond, of_overview, ◌>>=◌, ◌>>◌,
}
use shclop.Api.Access.{require_user, require_admin}
use shclop.Api.Access.Current.{require_user_sound, require_user_go, require_user_status}
use shclop.Api.Admin.{
  AdminRequest, get_users, get_models, get_gateway, post_user, patch_user, post_model, patch_model,
  patch_gateway, handle_admin, handle_admin_list_users, handle_admin_create_user,
  handle_admin_update_user, handle_admin_list_models, handle_admin_create_model,
  handle_admin_update_model, handle_admin_get_llm_gateway, handle_admin_update_llm_gateway,
  list_users_as, create_user_as, update_user_as, list_models_as, create_model_as, update_model_as,
  get_gateway_as, update_gateway_as,
}
use shclop.Api.Plugins.{
  handle_admin_list_plugins, handle_admin_upsert_plugin, handle_admin_delete_plugin,
  list_plugins_as, upsert_plugin_as, delete_plugin_as,
}
use shclop.Api.Overview.{handle_admin_overview, overview_of}
use shclop.Api.Sso.Settings.{
  handle_get_auth_settings, handle_patch_auth_settings, get_auth_settings_as,
  patch_auth_settings_as,
}
use shclop.Api.Sso.Links.{
  handle_admin_list_identities, handle_admin_link_identity, handle_admin_unlink_identity,
  list_identities_as, link_identity_as, unlink_identity_as,
}
use shclop.Api.Routes.{
  AdminLibrary, AdminRoute, admin_routes, of_admin, get_identities, post_identity, delete_identity,
  get_overview, get_auth_settings, get_plugins, patch_auth_settings, post_plugin, put_plugin,
  delete_plugin,
}

-- The request of an administrator: its header is a session's token, and the account of the session, as the
-- store has it now, is not disabled and has the role of an administrator.
abbrev pub IsAdministrator : Call → String → Server → Type 0
IsAdministrator c authorization s =
    (rest : String) × (cached : User) × (user : User) × (strip_prefix "Bearer " authorization
      ≡ some rest)
    × (resolve (trim_space rest) s.sessions ≡ some cached)
    × ((get_user c cached.id s.store).0 ≡ ok user)
    × (user.disabled ≡ false)
    × (user.role ≡ "admin")

-- A request that was refused: it was answered with 401, with 403, or with 500 where the store fails, and
-- nothing has changed.
abbrev pub IsRefused : Server → Flow (Unit {0}) × Server → Type 0
IsRefused s answered =
    (r : Response) × (answered ≡ (done r, s))
    × ((r.status ≡ 401) ⊎ ((r.status ≡ 403) ⊎ (r.status ≡ 500)))

abbrev pub IsGuarded : Call → String → Server → Flow (Unit {0}) × Server → Type 0
IsGuarded c authorization s answered = IsAdministrator c authorization s ⊎ IsRefused s answered

require_user-done :
    (c : Call) (authorization : String) (s : Server) {r : Response}
    → (require_user c authorization s).0 ≡ done r
    → require_user c authorization s ≡ (done r, s)
unfolding require_user get_user
require_user-done c authorization s h = ground arith

guard-IsGuarded :
    (c : Call) (authorization : String) (k : User → Handler (Unit {0})) (s : Server)
    → IsGuarded c authorization s
        ((require_user c authorization >>= λ user. require_admin user >> k user) s)
unfolding require_admin
guard-IsGuarded c authorization k s = elim (Flow-cases (require_user c authorization s).0) [
  | inr (r, refused) ↦ inr (
    r,
    rw (require_user-done c authorization s refused) refl,
    ground (arith, require_user_status c authorization s refused),
  )
  | inl (u, let_in) ↦ elim (Bool-cases (u.role == "admin")) [
    | inl admin ↦
        let (enabled, (rest, cached, given, known, there)) =
          require_user_sound c authorization s let_in in
        inl (
          rest,
          cached,
          u,
          given,
          known,
          there,
          enabled,
          ground (arith, admin, eq_iff u.role "admin"),
        )
    | inr other ↦ inr (
      record { status = 403; body = plain "forbidden" },
      rw (require_user_go c authorization s let_in, other) refl,
      inr (inl refl),
    )
  ]
]

handle_admin-IsGuarded :
    (lib : AdminLibrary) (authorization : String) (request : AdminRequest) (s : Server)
    → IsGuarded
        (lib.at 0)
        authorization
        s
        (handle_admin lib.hash_password lib.at authorization request s)
unfolding handle_admin handle_admin_list_users handle_admin_create_user handle_admin_update_user
    handle_admin_list_models handle_admin_create_model handle_admin_update_model
    handle_admin_get_llm_gateway handle_admin_update_llm_gateway
handle_admin-IsGuarded lib authorization get_users s =
    guard-IsGuarded (lib.at 0) authorization (list_users_as lib.at) s
handle_admin-IsGuarded lib authorization get_models s =
    guard-IsGuarded (lib.at 0) authorization (list_models_as lib.at) s
handle_admin-IsGuarded lib authorization get_gateway s =
    guard-IsGuarded (lib.at 0) authorization (get_gateway_as lib.at) s
handle_admin-IsGuarded lib authorization (post_user body) s =
    guard-IsGuarded (lib.at 0) authorization (create_user_as lib.hash_password lib.at body) s
handle_admin-IsGuarded lib authorization (patch_user id body) s =
    guard-IsGuarded (lib.at 0) authorization (update_user_as lib.at id body) s
handle_admin-IsGuarded lib authorization (post_model body) s =
    guard-IsGuarded (lib.at 0) authorization (create_model_as lib.at body) s
handle_admin-IsGuarded lib authorization (patch_model id body) s =
    guard-IsGuarded (lib.at 0) authorization (update_model_as lib.at id body) s
handle_admin-IsGuarded lib authorization (patch_gateway body) s =
    guard-IsGuarded (lib.at 0) authorization (update_gateway_as lib.at body) s

-- Every request under /api/admin is one of an administrator, with a session's token in its header and an account that the
-- store has as not disabled; or it is answered with 401, 403 or 500 and nothing has changed.
pub admin_routes-IsGuarded :
    (lib : AdminLibrary) (authorization : String) (route : AdminRoute) (s : Server)
    → IsGuarded (lib.at 0) authorization s (admin_routes lib authorization route s)
unfolding admin_routes handle_admin_list_identities handle_admin_link_identity
    handle_admin_unlink_identity handle_admin_overview handle_get_auth_settings
    handle_patch_auth_settings handle_admin_list_plugins handle_admin_upsert_plugin
    handle_admin_delete_plugin
admin_routes-IsGuarded lib authorization (of_admin request) s =
    handle_admin-IsGuarded lib authorization request s
admin_routes-IsGuarded lib authorization (get_identities user_id) s =
    guard-IsGuarded (lib.at 0) authorization (list_identities_as lib.at user_id) s
admin_routes-IsGuarded lib authorization (post_identity user_id body) s =
    guard-IsGuarded (lib.at 0) authorization (link_identity_as lib.at user_id body) s
admin_routes-IsGuarded lib authorization (delete_identity user_id provider_name subject) s =
    guard-IsGuarded (lib.at 0) authorization
      (unlink_identity_as lib.at user_id provider_name subject) s
admin_routes-IsGuarded lib authorization get_overview s =
    guard-IsGuarded (lib.at 0) authorization
      (λ user. respond 200 (of_overview (overview_of lib.config))) s
admin_routes-IsGuarded lib authorization get_auth_settings s =
    guard-IsGuarded (lib.at 0) authorization get_auth_settings_as s
admin_routes-IsGuarded lib authorization get_plugins s =
    guard-IsGuarded (lib.at 0) authorization (list_plugins_as lib.at) s
admin_routes-IsGuarded lib authorization (patch_auth_settings body) s =
    guard-IsGuarded (lib.at 0) authorization
      (patch_auth_settings_as lib.at lib.again authorization body) s
admin_routes-IsGuarded lib authorization (post_plugin body) s =
    guard-IsGuarded (lib.at 0) authorization
      (upsert_plugin_as lib.unmarshal lib.template_ok lib.at "" body) s
admin_routes-IsGuarded lib authorization (put_plugin path_id body) s =
    guard-IsGuarded (lib.at 0) authorization
      (upsert_plugin_as lib.unmarshal lib.template_ok lib.at path_id body) s
admin_routes-IsGuarded lib authorization (delete_plugin plugin_id) s =
    guard-IsGuarded (lib.at 0) authorization (delete_plugin_as lib.at plugin_id) s
