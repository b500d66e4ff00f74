-- ===== src/Store/Models.antt =====
-- internal/store/store.go: the LLM models and the gateway's settings.
use shclop.Prelude.{ℕ, String, Bool, Option, none, some, List, [], ◌∷◌, ◌++◌, ◌==◌}
use shclop.Prelude.Lists.{find_first, update_first}
use shclop.Domain.{LlmModel, LlmGatewaySettings}
use shclop.Store.Memory.{not_found, Result, ok, err, Call, Memory, Method, with_ctx}
use shclop.Store.Users.{found, override}

abbrev pub model_with_id : String → LlmModel → Bool
model_with_id model_id x = x.id == model_id

abbrev pub new_model : String → String → String → Bool → ℕ → LlmModel
new_model id display_name provider_model enabled now = record {
  id = id;
  display_name = display_name;
  provider_model = provider_model;
  enabled = enabled;
  created_at = now;
  updated_at = now;
}

abbrev add_model : Call → String → String → Bool → Result String → Method LlmModel
add_model c display_name provider_model enabled (err e) m = (err e, m)
add_model c display_name provider_model enabled (ok id) m =
    let x = new_model id display_name provider_model enabled c.now in
    (ok x, record m { llm_models = m.llm_models ++ x ∷ [] })

unfoldable pub create_llm_model : Call → String → String → Bool → Method LlmModel
create_llm_model c display_name provider_model enabled =
    with_ctx c (add_model c display_name provider_model enabled c.new_id)

unfoldable pub get_llm_model : Call → String → Method LlmModel
get_llm_model c model_id =
    with_ctx c λ m. (found (find_first (model_with_id model_id) m.llm_models), m)

unfoldable pub list_llm_models : Call → Method (List LlmModel)
list_llm_models c = with_ctx c λ m. (ok m.llm_models, m)

abbrev pub edit_model : ℕ → Option String → Option String → Option Bool → LlmModel → LlmModel
edit_model now display_name provider_model enabled x = record x {
  display_name = override display_name x.display_name;
  provider_model = override provider_model x.provider_model;
  enabled = override enabled x.enabled;
  updated_at = now;
}

abbrev update_found_model : String → (LlmModel → LlmModel) → Option LlmModel → Method LlmModel
update_found_model model_id f none m = (err not_found, m)
update_found_model model_id f (some x) m =
    (ok (f x), record m { llm_models = update_first (model_with_id model_id) f m.llm_models })

unfoldable pub update_llm_model :
    Call → String → Option String → Option String → Option Bool → Method LlmModel
update_llm_model c model_id display_name provider_model enabled = with_ctx c λ m.
    update_found_model model_id (edit_model c.now display_name provider_model enabled)
      (find_first (model_with_id model_id) m.llm_models) m

abbrev pub gateway_settings : Memory → LlmGatewaySettings
gateway_settings m = record {
  enabled = m.gateway_enabled;
  base_url = m.gateway_base_url;
  secret_name = m.gateway_secret;
  secret_key = m.gateway_key;
  updated_at = m.gateway_updated;
}

unfoldable pub get_llm_gateway_settings : Call → Method LlmGatewaySettings
get_llm_gateway_settings c = with_ctx c λ m. (ok (gateway_settings m), m)

unfoldable pub upsert_llm_gateway_settings :
    Call → Bool → String → String → String → Method LlmGatewaySettings
upsert_llm_gateway_settings c enabled base_url secret_name secret_key = with_ctx c λ m.
    let m' = record m {
      gateway_enabled = enabled;
      gateway_base_url = base_url;
      gateway_secret = secret_name;
      gateway_key = secret_key;
      gateway_updated = c.now;
    } in
    (ok (gateway_settings m'), m')
