-- ===== src/Compose/Plan/Samples.antt =====
-- A plan, and the theorem about validation applied to it.
use devcontainer.Base.{
  true, false, [], ◌∷◌, none, some, text, ◌≡◌, refl, ◌↔◌, sort_by, ◌==◌, text_ltb,
}
use devcontainer.Compose.Samples.{bare_service}
use devcontainer.Compose.Project.{Project, ServiceConfig}
use devcontainer.Compose.Plan.{
  Capabilities, unsupported_feature, validate, refuse_unsupported_fields, unsupported_of,
  services_unsupported, service_unsupported, networks_unsupported, unsupported_hooks, sort_fields,
  field_less, refuse_unsupported_conditions, depends_refusal, condition_refusal,
}
use devcontainer.Compose.Plan.Accepts.{IsAcceptable, validate_iff}

abbrev service : ServiceConfig
service = record bare_service {
  depends_on = (text "db", record { condition = text "service_healthy"; required = true }) ∷ [];
  links = text "db" ∷ [];
  pre_start = text "hook" ∷ [];
}

abbrev project : Project
project = record {
  services =
      (text "app", record service { links = []; pre_start = [] })
      ∷ (text "db", record service { depends_on = []; links = []; pre_start = [] })
      ∷ [];
  volumes = [];
  secrets = [];
  configs = [];
  networks = (text "default", []) ∷ [];
}

abbrev no_healthchecks : Capabilities
no_healthchecks = record { healthchecks = false; exit_codes = true; service_name_dns = true }

-- The fields are reported in order, whatever the order in which they are found.
sort_fields_app :
    sort_fields (service_unsupported (text "app") service)
    ≡ record {
      service = text "app";
      field = text "links";
      reason = text "legacy; replaced by network DNS in compose v2";
    }
      ∷ record {
        service = text "app";
        field = text "pre_start";
        reason = text "lifecycle hooks are not executed by the native orchestrator";
      }
      ∷ []
unfolding sort_fields service_unsupported unsupported_hooks field_less sort_by ◌==◌ text_ltb
sort_fields_app = refl

validate-project :
    validate no_healthchecks (some project)
    ≡ some (
        unsupported_feature
          (text "Healthchecks")
          (text "app")
          (text "depends_on.condition: service_healthy requires backend healthcheck support"))
unfolding validate refuse_unsupported_fields unsupported_of services_unsupported service_unsupported
    networks_unsupported unsupported_hooks refuse_unsupported_conditions depends_refusal
    condition_refusal ◌==◌
validate-project = refl

validate_iff_example :
    (validate no_healthchecks (some project) ≡ none) ↔ IsAcceptable no_healthchecks project
validate_iff_example = validate_iff no_healthchecks project
