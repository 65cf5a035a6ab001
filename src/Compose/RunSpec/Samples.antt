-- ===== src/Compose/RunSpec/Samples.antt =====
-- The theorem about labels applied to a service whose own labels claim to be another service's.
use devcontainer.Base.{if◌then◌else◌, ◌==◌, [], ◌∷◌, some, text, lookup, ◌≡◌}
use devcontainer.Compose.Samples.{bare_service}
use devcontainer.Compose.Project.{ServiceConfig}
use devcontainer.Compose.RunSpec.{
  label_project, label_engine, label_service, label_oneoff, label_config_hash, label_image_digest,
  engine_display_name, project_labels_of, service_labels,
}
use devcontainer.Compose.RunSpec.Labels.{service_labels_lem}

abbrev impostor : ServiceConfig
impostor = record bare_service {
  name = text "app";
  labels = (label_service, text "db") ∷ (label_config_hash, []) ∷ (text "team", text "web") ∷ [];
}

service_labels_lem_example :
    let labels =
      service_labels
        ((label_engine, text "other") ∷ [])
        (project_labels_of (text "demo"))
        impostor
        (text "h")
        (text "d") in
    (lookup label_project labels ≡ some (text "demo"))
    × (lookup label_engine labels ≡ some engine_display_name)
    × (lookup label_service labels ≡ some (text "app"))
    × (lookup label_oneoff labels ≡ some (text "False"))
    × (lookup label_config_hash labels ≡ some (text "h"))
    × (lookup label_image_digest labels ≡ (
        if text "d" == []
        then lookup label_image_digest ((label_engine, text "other") ∷ [])
        else some (text "d")))
service_labels_lem_example =
    service_labels_lem (text "demo") ((label_engine, text "other") ∷ []) impostor (text "h")
      (text "d")
