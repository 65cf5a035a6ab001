-- ===== src/Compose/Orchestrator/Reuse.antt =====
-- When a container is taken down, and when one is kept.
mod Again
mod Samples
use devcontainer.Base.{
  eq_of_==, ℕ, Bool, true, false, not, ◌&&◌, ◌||◌, List, [], ◌∷◌, ◌++◌, Option, none, some, Text,
  text, ==_refl, Map, lookup, is_some, ◌≡◌, ◌≢◌, ◌⊎◌, ap, sym, Option-cases, arith, if◌then◌else◌,
}
use devcontainer.Compose.Project.{ServiceConfig}
use devcontainer.Compose.Runtime.{
  Container, ContainerDetails, RunSpec, Answer, done, Runtime, Call, run_call, start_call,
  stop_call, remove_call, network_call, remove_network_call, volume_call, remove_volume_call,
  remove_image_call, pull_call, hosts_call, State,
}
use devcontainer.Compose.RunSpec.{
  config_hash_stripped, strip_for_hash, service_labels, label_project, label_service,
  label_config_hash, label_image_digest,
}
use devcontainer.Compose.RunSpec.Labels.{service_labels_lem}
use devcontainer.Compose.Orchestrator.{Plan, failed, ask, is_managed, is_current, text_at}

-- The containers that are stopped or removed, the last call first.
unfoldable pub taken_down : List Call → List Text
taken_down [] = []
taken_down (stop_call id ∷ calls) = id ∷ taken_down calls
taken_down (remove_call id ∷ calls) = id ∷ taken_down calls
taken_down (run_call r ∷ calls) = taken_down calls
taken_down (start_call id ∷ calls) = taken_down calls
taken_down (network_call name ∷ calls) = taken_down calls
taken_down (remove_network_call name ∷ calls) = taken_down calls
taken_down (volume_call name ∷ calls) = taken_down calls
taken_down (remove_volume_call name ∷ calls) = taken_down calls
taken_down (remove_image_call ref ∷ calls) = taken_down calls
taken_down (pull_call ref ∷ calls) = taken_down calls
taken_down (hosts_call ref ∷ calls) = taken_down calls

-- The container is not to be trusted: it cannot be inspected, or it is of this orchestrator and is
-- not what the service asks for.
abbrev pub HasDrifted : Option ContainerDetails → (hash image_digest : Text) → Type 0
HasDrifted found hash image_digest =
    (found ≡ none)
    ⊎ ((d : ContainerDetails) × (found ≡ some d)
        × (is_managed d ≡ true)
        × (is_current d hash image_digest ≡ false))

module _ {S : Type 0} (rt : Runtime S) where
  -- Nothing is taken down, or the one container that was found.
  Spares :
      Option ContainerDetails
      → (c : Container) (hash image_digest : Text) (before after : State S) → Type 0
  Spares found c hash image_digest before after =
      (taken_down after.calls ≡ taken_down before.calls)
      ⊎ ((taken_down after.calls ≡ c.id ∷ c.id ∷ taken_down before.calls)
          × HasDrifted found hash image_digest)

  -- What is taken down after a listing: nothing, or its first container, where the plan does not adopt
  -- what there is and the container has drifted.
  abbrev pub TakesDownDrifted :
      (adopt : Bool)
      → Answer (List Container) × State S
      → (hash image_digest : Text) → (before after : State S) → Type 0
  TakesDownDrifted adopt (answer, s) hash image_digest before after =
      (taken_down after.calls ≡ taken_down before.calls)
      ⊎ ((c : Container) × (cs : List Container) × (adopt ≡ false)
          × (answer ≡ done (c ∷ cs))
          × (taken_down after.calls ≡ c.id ∷ c.id ∷ taken_down before.calls)
          × HasDrifted (ask (rt.inspect_container c.id) s).0 hash image_digest)

  -- The containers of a service, as the plan looks for them.
  abbrev pub listing : Plan → ServiceConfig → State S → Answer (List Container) × State S
  listing plan svc s =
      ask (rt.list_containers ((label_project, plan.project_name) ∷ (label_service, svc.name) ∷ []))
        s
