-- ===== src/Api/Overview.antt =====
-- internal/api/server.go: the overview for administrators, and whether the server is up. The fields of the
-- configuration that the overview shows are a `Config`.
use shclop.Prelude.{String, Bool, true, List}
use shclop.Prelude.Dict.{Dict}
use shclop.Domain.{User, AdminOverview}
use shclop.Store.Memory.{Result, ok, err, Call}
use shclop.Store.Users.{list_users}
use shclop.Api.Server.{plain, of_overview, status_text, Handler, ◌>>=◌, ◌>>◌, respond, call_store}
use shclop.Api.Access.{require_user, require_admin}

pub record Config : Type 0 where
  pub sandbox_provider : String
  pub kubernetes_namespace : String
  pub agent_runtime_class_name : String
  pub runtime_images : Dict String
  pub metrics : Bool
  pub grafana_url : String

abbrev pub overview_of : Config → AdminOverview
overview_of cfg = record {
  runtime = record {
    provider = cfg.sandbox_provider;
    namespace = cfg.kubernetes_namespace;
    runtime_class_name = cfg.agent_runtime_class_name;
    images = cfg.runtime_images;
  };
  observability = record {
    metrics_enabled = cfg.metrics;
    logging_enabled = true;
    grafana_url = cfg.grafana_url;
  };
  health = record { healthz = "ok"; readyz = "ok" };
}

unfoldable pub handle_admin_overview : Config → Call → String → Handler (Unit {0})
handle_admin_overview cfg c authorization = do
  user ← require_user c authorization
  require_admin user
  respond 200 (of_overview (overview_of cfg))

unfoldable pub handle_health : Handler (Unit {0})
handle_health = respond 200 (status_text "ok")

abbrev readiness : Result (List User) → Handler (Unit {0})
readiness (ok users) = respond 200 (status_text "ready")
readiness (err e) = respond 503 (plain "{\"status\":\"not ready\"}")

unfoldable pub handle_ready : Call → Handler (Unit {0})
handle_ready c = do r ← call_store (list_users c); readiness r
