-- ===== src/Compose/Orchestrator.antt =====
-- compose/orchestrator.go: bringing up and reusing the container of one service.
pub mod Gates
pub mod Up
pub mod Down
mod Reuse
mod Samples
use devcontainer.Base.{
  ℕ, ℤ, Bool, true, false, not, ◌&&◌, List, [], ◌∷◌, ◌++◌, Option, none, some, Text, text, ◌==◌,
  Map, lookup, is_some, if◌then◌else◌,
}
use devcontainer.Compose.Project.{Project, ServiceConfig}
use devcontainer.Compose.Plan.{Refusal}
use devcontainer.Compose.Runtime.{
  Container, ContainerDetails, is_running, RunSpec, Answer, done, fault, RunAnswer, started_as,
  image_not_found, run_fault, Runtime, Call, run_call, start_call, stop_call, remove_call,
  pull_call, State,
}
use devcontainer.Compose.RunSpec.{
  label_project, label_service, label_config_hash, label_image_digest, project_labels_of,
  SpecResult, spec, unjoinable, service_to_run_spec, config_hash,
}

-- A plan's project is missing where the code has a nil pointer.
pub record Plan : Type 0 where
  pub project : Option Project
  pub project_name : Text
  pub services : List Text
  pub labels : Map Text
  pub adopt_existing : Bool

-- The errors of `ensureService`; each keeps the cause that the runtime gives.
pub data ServiceError : Type 0 where
  list_error start_error remove_error pull_error run_error : (cause : Text) → ServiceError
  not_joinable : (mode : Text) → ServiceError

pub data Ensured : Type 0 where
  ensured : (id : Text) → Ensured
  failed : ServiceError → Ensured

-- `m[k]`, which is empty where the key is missing.
abbrev pub text_at : Text → Map Text → Text
text_at k m = elim (lookup k m) [ none ↦ [] | some v ↦ v ]

-- A query of the runtime; a call that changes something, with an answer and without.
abbrev pub ask {ℓ} : {S : Type 0} {A : Type ℓ} → (S → A × S) → State S → A × State S
ask query s = let (answer, w) = query s.world in (answer, record s { world = w })

abbrev pub call {ℓ} : {S : Type 0} {A : Type ℓ} → Call → (S → A × S) → State S → A × State S
call c op s = let (answer, w) = op s.world in (answer, record { world = w; calls = c ∷ s.calls })

abbrev pub tell : {S : Type 0} → Call → (S → S) → State S → State S
tell c op s = record { world = op s.world; calls = c ∷ s.calls }

-- The container was created by this orchestrator.
abbrev pub is_managed : ContainerDetails → Bool
is_managed d = is_some (lookup label_config_hash d.labels)

pub is_current : ContainerDetails → (hash image_digest : Text) → Bool
is_current d hash image_digest =
    (text_at label_config_hash d.labels == hash)
    && (text_at label_image_digest d.labels == image_digest)

abbrev pub or_ref : Text → Option Text → Text
or_ref ref none = ref
or_ref ref (some id) = if id == [] then ref else id

-- `if err != nil { return fmt.Errorf(…) }`
abbrev pub unless_fault :
    {S : Type 0}
    → Option Text × State S
    → (Text → ServiceError)
    → (State S → Ensured × State S)
    → Ensured × State S
unless_fault (none, s) error k = k s
unless_fault (some cause, s) error k = (failed (error cause), s)

module _ {S : Type 0} (rt : Runtime S) where
  pub resolve_image_digest : (ref : Text) → State S → Text × State S
  resolve_image_digest ref s =
      let (found, s') = ask (rt.inspect_image ref) s in
      if ref == [] then ([], s) else (or_ref ref found, s')

  -- `StartContainer`, and what is returned behind it.
  pub start : (id : Text) → State S → Ensured × State S
  start id s =
      unless_fault (call (start_call id) (rt.start_container id) s) start_error
        λ s'. (ensured id, s')

  pub reuse : Container → State S → Ensured × State S
  reuse c s = if is_running c.state then (ensured c.id, s) else start c.id s

  abbrev pub started_or_failed : RunAnswer × State S → Ensured × State S
  started_or_failed (started_as id, s) = start id s
  started_or_failed (image_not_found cause, s) = (failed (run_error cause), s)
  started_or_failed (run_fault cause, s) = (failed (run_error cause), s)

  pub pull_and_run : ServiceConfig → RunSpec → State S → Ensured × State S
  pull_and_run svc r s =
      unless_fault (call (pull_call svc.image) (rt.pull_image svc.image) s) pull_error
        λ s'. started_or_failed (call (run_call r) (rt.run_container r) s')

  -- A missing image is pulled once, where the service names one.
  abbrev pub run_or_pull : ServiceConfig → RunSpec → RunAnswer × State S → Ensured × State S
  run_or_pull svc r (started_as id, s) = start id s
  run_or_pull svc r (image_not_found cause, s) =
      if svc.image == [] then (failed (run_error cause), s) else pull_and_run svc r s
  run_or_pull svc r (run_fault cause, s) = (failed (run_error cause), s)

  pub run_service : ServiceConfig → SpecResult → State S → Ensured × State S
  run_service svc (unjoinable mode) s = (failed (not_joinable mode), s)
  run_service svc (spec r) s = run_or_pull svc r (call (run_call r) (rt.run_container r) s)

  -- `StopContainer` and `RemoveContainer`, and then a fresh container.
  pub recreate : Container → ServiceConfig → SpecResult → State S → Ensured × State S
  recreate c svc r s =
      unless_fault
        (call (remove_call c.id) (rt.remove_container c.id)
          (tell (stop_call c.id) (rt.stop_container c.id) s))
        remove_error λ s'. run_service svc r s'

  -- The choice for a container that exists and is not adopted by the plan, once it is inspected.
  pub reuse_or_recreate :
      Option ContainerDetails × State S
      → Container
      → ServiceConfig
      → (hash image_digest : Text) → SpecResult
      → Ensured × State S
  reuse_or_recreate (none, s) c svc hash image_digest r = recreate c svc r s
  reuse_or_recreate (some d, s) c svc hash image_digest r =
      if not (is_managed d)
      then reuse c s
      else if is_current d hash image_digest
      then reuse c s
      else recreate c svc r s

  pub ensure_listed :
      (adopt : Bool)
      → Answer (List Container) × State S
      → ServiceConfig
      → (hash image_digest : Text) → SpecResult
      → Ensured × State S
  ensure_listed adopt (fault cause, s) svc hash image_digest r = (failed (list_error cause), s)
  ensure_listed adopt (done [], s) svc hash image_digest r = run_service svc r s
  ensure_listed adopt (done (c ∷ cs), s) svc hash image_digest r =
      if adopt
      then reuse c s
      else reuse_or_recreate (ask (rt.inspect_container c.id) s) c svc hash image_digest r

  -- `ensureService`; `resolve` gives the id of a service that is already started.
  pub ensure_service :
      (digest : Text → ServiceConfig → Text)
      → Plan
      → ServiceConfig
      → (resolve : Text → Text) → State S
      → Ensured × State S
  ensure_service digest plan svc resolve s =
      let (image_digest, s') = resolve_image_digest svc.image s in
      let hash = config_hash digest image_digest svc in
      let labels = project_labels_of plan.project_name in
      ensure_listed plan.adopt_existing
        (ask
          (rt.list_containers ((label_project, plan.project_name) ∷ (label_service, svc.name) ∷ []))
          s')
        svc hash image_digest
        (service_to_run_spec plan.project_name plan.labels labels svc hash image_digest resolve)
