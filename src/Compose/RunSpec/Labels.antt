-- ===== src/Compose/RunSpec/Labels.antt =====
-- The labels of a container that the orchestrator creates.
use devcontainer.Base.{
  if◌then◌else◌, Bool-cases, ◌==◌, inl, inr, true, false, List, [], ◌∷◌, some, Text, ◌==◌, eq_of_==,
  Map, lookup, insert, lookup-insert, ==_refl, contains, text, ◌≢◌, ◌≡◌, refl, ap, ◌∙◌, Bool-cases,
  inl, inr,
}
use devcontainer.Compose.Project.{ServiceConfig}
use devcontainer.Compose.RunSpec.{
  label_service, label_config_hash, label_image_digest, label_oneoff, reserved_labels, put_labels,
  put_user_labels, put_digest, service_labels, label_project, label_engine, project_labels_of,
  engine_display_name,
}

ne_of_contains :
    (xs : List Text) (j k : Text) → contains xs j ≡ false → contains xs k ≡ true → (j == k) ≡ false
ne_of_contains xs j k h m = elim (Bool-cases (j == k)) [
  | inl same ↦ cc (h, m, ap (contains xs) (eq_of_== j k same))
  | inr other ↦ other
]

-- A reserved label does not depend on the user's labels.
lookup-put_user_labels :
    (k : Text) (out from : Map Text)
    → contains reserved_labels k ≡ true
    → lookup k (put_user_labels out from) ≡ lookup k out
unfolding put_user_labels
lookup-put_user_labels k out [] h = refl
lookup-put_user_labels k out ((j, v) ∷ from) h = elim (Bool-cases (contains reserved_labels j)) [
  | inl kept ↦ rw kept (lookup-put_user_labels k out from h)
  | inr free ↦ rw free (
      lookup-put_user_labels k (insert j v out) from h
      ∙ lookup-insert j k v out
      ∙ rw (ne_of_contains reserved_labels j k free h) refl)
]

insert_other :
    (j k v : Text) (m : Map Text) → (j == k) ≡ false → lookup k (insert j v m) ≡ lookup k m
insert_other j k v m h = rw h at (lookup-insert j k v m)

insert_self : (k v : Text) (m : Map Text) → lookup k (insert k v m) ≡ some v
insert_self k v m = rw (==_refl k) at (lookup-insert k k v m)

digest_other :
    (digest k : Text) (m : Map Text)
    → (label_image_digest == k) ≡ false
    → lookup k (put_digest digest m) ≡ lookup k m
digest_other digest k m h = elim (Bool-cases (digest == [])) [
  | inl unset ↦ rw unset refl
  | inr set ↦ rw set (insert_other label_image_digest k digest m h)
]

digest_self :
    (digest : Text) (m : Map Text)
    → digest ≢ []
    → lookup label_image_digest (put_digest digest m) ≡ some digest
digest_self digest m h = elim (Bool-cases (digest == [])) [
  | inl unset ↦ absurd (h (eq_of_== digest [] unset))
  | inr set ↦ rw set (insert_self label_image_digest digest m)
]

-- The labels before the service's own and the image's digest are put in.
abbrev first_labels : (project_name : Text) → Map Text → Map Text
first_labels project_name plan_labels =
    insert label_engine engine_display_name (insert label_project project_name plan_labels)

abbrev named_labels : (name project_name : Text) → Map Text → Map Text
named_labels name project_name plan_labels =
    insert label_oneoff (text "False")
      (insert label_service name (first_labels project_name plan_labels))

lookup-service_labels :
    (project_name : Text) (plan_labels : Map Text) (svc : ServiceConfig) (hash digest k : Text)
    → contains reserved_labels k ≡ true
    → lookup k (service_labels plan_labels (project_labels_of project_name) svc hash digest)
      ≡ lookup k (
          put_digest digest
            (insert label_config_hash hash (named_labels svc.name project_name plan_labels)))
unfolding service_labels put_labels
lookup-service_labels project_name plan_labels svc hash digest k h =
    lookup-put_user_labels k
      (put_digest digest
        (insert label_config_hash hash (named_labels svc.name project_name plan_labels)))
      svc.labels h

-- Whatever labels the plan and the service bring, a container bears the project, the engine, the
-- service and the hash that it was created for. It bears the image's digest where there is one, and
-- otherwise only what the plan's labels say about that.
pub service_labels_lem :
    (project_name : Text) (plan_labels : Map Text) (svc : ServiceConfig) (hash digest : Text)
    → let labels = service_labels plan_labels (project_labels_of project_name) svc hash digest in
      (lookup label_project labels ≡ some project_name)
      × (lookup label_engine labels ≡ some engine_display_name)
      × (lookup label_service labels ≡ some svc.name)
      × (lookup label_oneoff labels ≡ some (text "False"))
      × (lookup label_config_hash labels ≡ some hash)
      × (lookup label_image_digest labels
          ≡ (if digest == [] then lookup label_image_digest plan_labels else some digest))
unfolding reserved_labels contains ◌==◌
service_labels_lem project_name plan_labels svc hash digest =
    let first = first_labels project_name plan_labels in
    let named = named_labels svc.name project_name plan_labels in
    let hashed = insert label_config_hash hash named in
    let found = lookup-service_labels project_name plan_labels svc hash digest in
    let service_kept =
      λ (k : Text) (h : (label_service == k) ≡ false) (g : (label_oneoff == k) ≡ false).
        insert_other label_oneoff k (text "False") (insert label_service svc.name first) g
        ∙ insert_other label_service k svc.name first h in
    let hash_kept =
      λ (k : Text) (h : (label_config_hash == k) ≡ false) (g : (label_image_digest == k) ≡ false).
        digest_other digest k hashed g ∙ insert_other label_config_hash k hash named h in
    (
      found label_project refl
          ∙ hash_kept label_project refl refl
          ∙ service_kept label_project refl refl
          ∙ insert_other label_engine label_project engine_display_name
              (insert label_project project_name plan_labels) refl
          ∙ insert_self label_project project_name plan_labels,
      found label_engine refl
          ∙ hash_kept label_engine refl refl
          ∙ service_kept label_engine refl refl
          ∙ insert_self label_engine engine_display_name
              (insert label_project project_name plan_labels),
      found label_service refl
          ∙ hash_kept label_service refl refl
          ∙ insert_other label_oneoff label_service (text "False")
              (insert label_service svc.name first) refl
          ∙ insert_self label_service svc.name first,
      found label_oneoff refl
          ∙ hash_kept label_oneoff refl refl
          ∙ insert_self label_oneoff (text "False") (insert label_service svc.name first),
      found label_config_hash refl
          ∙ digest_other digest label_config_hash hashed refl
          ∙ insert_self label_config_hash hash named,
      found label_image_digest refl ∙ elim (Bool-cases (digest == [])) [
        | inl none_known ↦ rw none_known (
            insert_other label_config_hash label_image_digest hash named refl
            ∙ service_kept label_image_digest refl refl
            ∙ insert_other label_engine label_image_digest engine_display_name
                (insert label_project project_name plan_labels) refl
            ∙ insert_other label_project label_image_digest project_name plan_labels refl)
        | inr known ↦ rw known (insert_self label_image_digest digest hashed)
      ],
    )
