-- ===== src/Compose/Orchestrator/Reuse/Again.antt =====
-- A container that an earlier run left, and a service that is still the same.
use devcontainer.Base.{
  eq_of_==, Bool, true, false, ◌&&◌, List, [], ◌∷◌, Option, none, some, Text, ◌==◌, ==_refl, Map,
  lookup, ◌≡◌, ◌≢◌, inl, inr, refl, ap, sym, subst, ◌∙◌, Bool-cases, if◌then◌else◌,
}
use devcontainer.Compose.Project.{ServiceConfig}
use devcontainer.Compose.Runtime.{Container, ContainerDetails, Answer, done, Runtime, State}
use devcontainer.Compose.RunSpec.{
  config_hash_stripped, SpecResult, config_hash, strip_for_hash, service_labels, project_labels_of,
  label_config_hash, label_image_digest, service_to_run_spec,
}
use devcontainer.Compose.RunSpec.Labels.{service_labels_lem}
use devcontainer.Compose.Orchestrator.{
  Plan, ask, is_managed, is_current, text_at, resolve_image_digest, reuse, reuse_or_recreate,
  ensure_listed, ensure_service,
}
use devcontainer.Compose.Orchestrator.Reuse.{listing}

reuse_or_recreate_current :
    {S : Type 0} (rt : Runtime S) (found : Option ContainerDetails) (s : State S) (c : Container)
    (d : ContainerDetails) (svc : ServiceConfig) (hash image : Text) (r : SpecResult)
    → found ≡ some d
    → is_managed d ≡ true
    → is_current d hash image ≡ true
    → reuse_or_recreate rt (found, s) c svc hash image r ≡ reuse rt c s
unfolding reuse_or_recreate
reuse_or_recreate_current rt found s c d svc hash image r seen managed current =
    ap (λ f. reuse_or_recreate rt (f, s) c svc hash image r) seen ∙ rw (managed, current) refl

ensure_listed_current :
    {S : Type 0} (rt : Runtime S) (adopt : Bool) (answer : Answer (List Container)) (s : State S)
    (c : Container) (cs : List Container) (d : ContainerDetails) (svc : ServiceConfig)
    (hash image : Text) (r : SpecResult)
    → adopt ≡ false
    → answer ≡ done (c ∷ cs)
    → (ask (rt.inspect_container c.id) s).0 ≡ some d
    → is_managed d ≡ true
    → is_current d hash image ≡ true
    → ensure_listed rt adopt (answer, s) svc hash image r
      ≡ reuse rt c (ask (rt.inspect_container c.id) s).1
unfolding ensure_listed
ensure_listed_current rt adopt answer s c cs d svc hash image r fresh listed seen managed current =
    let (found, s') = ask (rt.inspect_container c.id) s in
    ap (λ a. ensure_listed rt a (answer, s) svc hash image r) fresh
    ∙ ap (λ l. ensure_listed rt false (l, s) svc hash image r) listed
    ∙ reuse_or_recreate_current rt found s' c d svc hash image r seen managed current

is_managed_of :
    (d : ContainerDetails) (hash : Text)
    → lookup label_config_hash d.labels ≡ some hash
    → is_managed d ≡ true
is_managed_of d hash h = rw h refl

text_at_of : (k v : Text) (m : Map Text) → lookup k m ≡ some v → text_at k m ≡ v
text_at_of k v m h = ap (λ o. elim o [ none ↦ [] | some w ↦ w ]) h

is_current_of :
    (d : ContainerDetails) (hash image : Text)
    → lookup label_config_hash d.labels ≡ some hash
    → lookup label_image_digest d.labels ≡ some image
    → is_current d hash image ≡ true
unfolding is_current
is_current_of d hash image h g =
    subst (λ x. (x == hash) && (text_at label_image_digest d.labels == image) ≡ true)
      (sym (text_at_of label_config_hash hash d.labels h))
      (subst (λ x. (hash == hash) && (x == image) ≡ true)
        (sym (text_at_of label_image_digest image d.labels g))
        (rw (==_refl hash, ==_refl image) refl))

known_digest :
    (image : Text) (o found : Option Text)
    → image ≢ []
    → found ≡ (if image == [] then o else some image)
    → found ≡ some image
known_digest image o found ne h = elim (Bool-cases (image == [])) [
  | inl unknown ↦ absurd (ne (eq_of_== image [] unknown))
  | inr known ↦ rw known at h
]

-- A service whose container is there, with the labels that an earlier run gave it, gets that container
-- back, started if it has to be: what changed between the runs may only be what the hash leaves out,
-- and the image's digest is the same as before.
pub ensure_service_again :
    {S : Type 0} (rt : Runtime S) (digest : Text → ServiceConfig → Text) (plan : Plan)
    (old svc : ServiceConfig) (old_labels : Map Text) (resolve : Text → Text) (s : State S)
    (c : Container) (cs : List Container) (d : ContainerDetails)
    → plan.adopt_existing ≡ false
    → strip_for_hash old ≡ strip_for_hash svc
    → let (image, s1) = resolve_image_digest rt svc.image s in
      let (answer, s2) = listing rt plan svc s1 in
      let (found, s3) = ask (rt.inspect_container c.id) s2 in
      image ≢ []
      → answer ≡ done (c ∷ cs)
      → found ≡ some d
      → d.labels
        ≡ service_labels old_labels
            (project_labels_of plan.project_name)
            old
            (config_hash digest image old)
            image
      → ensure_service rt digest plan svc resolve s ≡ reuse rt c s3
unfolding ensure_service
ensure_service_again rt digest plan old svc old_labels resolve s c cs d fresh same ne listed found
      labels =
    let (image, s1) = resolve_image_digest rt svc.image s in
    let (answer, s2) = listing rt plan svc s1 in
    let hash = config_hash digest image svc in
    let project_labels = project_labels_of plan.project_name in
    let (_, _, _, _, hash_of, image_of) =
      service_labels_lem plan.project_name old_labels old (config_hash digest image old) image in
    let same_hash : config_hash digest image old ≡ hash =
      config_hash_stripped digest image old svc same in
    let found_hash = rw (sym labels, same_hash) at hash_of in
    ensure_listed_current rt plan.adopt_existing answer s2 c cs d svc hash image
      (service_to_run_spec plan.project_name plan.labels project_labels svc hash image resolve)
      fresh listed found (is_managed_of d hash found_hash)
      (is_current_of d hash image found_hash (
        known_digest image (lookup label_image_digest old_labels)
          (lookup label_image_digest d.labels) ne (rw (sym labels) at image_of)))
