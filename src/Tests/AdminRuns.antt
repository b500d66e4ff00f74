-- ===== src/Tests/AdminRuns.antt =====
-- internal/api/server.go: requests of the administration, and an entry of the log.
use shclop.Tests.Data.{server, deps, populated, alice}
use shclop.Api.Routes.Guarded.{admin_routes-IsGuarded, IsGuarded}
use shclop.Api.Routes.{AdminLibrary, admin_routes, delete_identity}
use shclop.Api.Admin.Only.{post_user_sound, IsCreatedBy}
use shclop.Api.Admin.{
  create_user_as, handle_admin, handle_admin_create_user, post_user, CreateUserRequest,
}
use shclop.Api.Access.{require_admin, enforce_current_user, require_user}
use shclop.Api.Server.{trim_activity, record_activity, of_user, go, Server}
use shclop.Store.Users.{create_user, get_user}
use shclop.Auth.{resolve}
use shclop.Prelude.Text.{trim_space, strip_prefix}
use shclop.Prelude.Dict.{insert, lookup}
use shclop.Prelude.Lists.{find_first}
use shclop.Store.Memory.{ok, err, failure, Result}
use shclop.Domain.{User}
use shclop.Prelude.{false, ◌≡◌, refl, true, some, [], ◌∷◌, String}

abbrev root : User
root = record alice { id = "u0"; username = "root"; role = "admin" }

abbrev with_root : Server
with_root = record server {
  store = record populated { users = root ∷ populated.users };
  sessions = ("tr", root) ∷ server.sessions;
}

abbrev hashed : String → Result String
hashed password = ok "h"

abbrev carol_request : CreateUserRequest
carol_request = record { username = " carol "; password = "pw"; role = "" }

abbrev carol : User
carol = record {
  id = "n";
  username = "carol";
  role = "user";
  disabled = false;
  created_at = 1;
  updated_at = 1;
}

abbrev library : AdminLibrary
library = record {
  hash_password = hashed;
  unmarshal = λ yaml. err (failure "yaml");
  template_ok = λ text. true;
  config = record {
    sandbox_provider = "docker";
    kubernetes_namespace = "agents";
    agent_runtime_class_name = "kata";
    runtime_images = [];
    metrics = true;
    grafana_url = "";
  };
  at = deps.at;
  again = deps.at;
}

admin_routes-IsGuarded_example :
    IsGuarded
      (deps.at 0)
      "Bearer ta"
      with_root
      (admin_routes library "Bearer ta" (delete_identity "u0" "corp" "s9") with_root)
admin_routes-IsGuarded_example =
    admin_routes-IsGuarded library "Bearer ta" (delete_identity "u0" "corp" "s9") with_root

post_user_sound_example :
    ((u : User) × ((require_user (deps.at 0) "Bearer tr" with_root).0 ≡ go u) × (u.role ≡ "admin"))
    × IsCreatedBy hashed deps.at
        (some carol_request)
        with_root
        (handle_admin hashed deps.at "Bearer tr" (post_user (some carol_request)) with_root).1
        (record { status = 201; body = of_user carol })
unfolding handle_admin handle_admin_create_user require_user strip_prefix trim_space resolve lookup
    enforce_current_user get_user find_first require_admin create_user_as create_user
    record_activity trim_activity insert
post_user_sound_example =
    post_user_sound hashed deps.at "Bearer tr" (some carol_request) with_root
      {r = record { status = 201; body = of_user carol }} refl refl
