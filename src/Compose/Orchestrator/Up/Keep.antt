-- ===== src/Compose/Orchestrator/Up/Keep.antt =====
-- The services that are kept: what the plan asks for, and all that it depends on.
use devcontainer.Base.{
  true, List, [], some, Text, keys, contains, ◌≡◌, ◌⊎◌, refl, inl, inr, ap, sym, ◌∙◌, Bool-cases,
  is_empty,
}
use devcontainer.Compose.Project.{Project}
use devcontainer.Compose.Graph.Closure.{Reach, Reach-Edge, service_closure_lem}
use devcontainer.Compose.Orchestrator.Up.{make_keep_set}
use devcontainer.Compose.Orchestrator.Up.Order.{IsClosed}

-- The kept services are closed under dependencies, whichever services the plan names.
pub make_keep_set-IsClosed :
    (project : Project) (services keep : List Text)
    → make_keep_set project services ≡ some keep
    → IsClosed project.services keep
unfolding make_keep_set
make_keep_set-IsClosed project services keep h a b k e = elim (Bool-cases (is_empty services)) [
  | inl all ↦
      let same : keys project.services ≡ keep = cc (rw all at h) in
      ap (λ l. contains l b) (sym same) ∙ e.is_service
  | inr named ↦
      let (out, found, _, reach) = service_closure_lem project services in
      let same : out ≡ keep = cc (found, rw named at h) in
      let from_a = (reach a).0 (ap (λ l. contains l a) same ∙ k) in
      ap (λ l. contains l b) (sym same)
      ∙ (reach b).1 (Reach-Edge project.services services a b from_a e)
]

-- The services that a plan asks for: all, or those that are reached from the ones it names.
abbrev pub IsAskedFor : Project → (services : List Text) → Text → Type 0
IsAskedFor project services x = (services ≡ []) ⊎ Reach project.services services x

pub contains-make_keep_set :
    (project : Project) (services keep : List Text) (x : Text)
    → make_keep_set project services ≡ some keep
    → contains (keys project.services) x ≡ true
    → IsAskedFor project services x
    → contains keep x ≡ true
unfolding make_keep_set
contains-make_keep_set project services keep x h is asked = elim (Bool-cases (is_empty services)) [
  | inl all ↦
      let same : keys project.services ≡ keep = cc (rw all at h) in
      ap (λ l. contains l x) (sym same) ∙ is
  | inr named ↦
      let (out, found, _, reach) = service_closure_lem project services in
      let same : out ≡ keep = cc (found, rw named at h) in
      ap (λ l. contains l x) (sym same)
      ∙ (reach x).1
          (elim asked [ inl none_named ↦ absurd (cc (named, ap is_empty none_named)) | inr r ↦ r ])
]

pub make_keep_set-total :
    (project : Project) (services : List Text)
    → (keep : List Text) × (make_keep_set project services ≡ some keep)
unfolding make_keep_set
make_keep_set-total project services = elim (Bool-cases (is_empty services)) [
  | inl all ↦ (keys project.services, rw all refl)
  | inr named ↦
      let (out, found, _, _) = service_closure_lem project services in (out, rw named found)
]
