-- ===== src/Compose/Orchestrator/Down/Removal.antt =====
-- Down: what it has removed when it succeeds.
use devcontainer.Base.{
  List, [], ◌∷◌, ◌++◌, Option, none, some, Text, text, ◌==◌, ◌≡◌, ◌≢◌, refl, ◌∙◌, eq_iff, if_ind,
  if◌then◌else◌,
}
use mathlib.Core.List.{Perm}
use devcontainer.Compose.Runtime.{
  Container, Answer, done, fault, Runtime, State, Call, run_call, start_call, stop_call,
  remove_call, network_call, volume_call, pull_call, hosts_call, remove_network_call,
  remove_volume_call, remove_image_call,
}
use devcontainer.Compose.RunSpec.{label_project}
use devcontainer.Compose.Orchestrator.{ask, call, tell}
use devcontainer.Compose.Orchestrator.Down.{
  DownPlan, DownError, after_removal, order_containers_for_teardown, remove_all, remove_volumes,
  remove_images, volumes_of, remove_listed, clean_up, clean_up_after, down_listed, down,
}
use devcontainer.Compose.Orchestrator.Down.Teardown.{order_containers_for_teardown-perm}

-- The calls that act on containers, the last one first.
pub container_calls : List Call → List Call
container_calls [] = []
container_calls (run_call r ∷ calls) = run_call r ∷ container_calls calls
container_calls (start_call id ∷ calls) = start_call id ∷ container_calls calls
container_calls (stop_call id ∷ calls) = stop_call id ∷ container_calls calls
container_calls (remove_call id ∷ calls) = remove_call id ∷ container_calls calls
container_calls (network_call name ∷ calls) = container_calls calls
container_calls (remove_network_call name ∷ calls) = container_calls calls
container_calls (volume_call name ∷ calls) = container_calls calls
container_calls (remove_volume_call name ∷ calls) = container_calls calls
container_calls (remove_image_call ref ∷ calls) = container_calls calls
container_calls (pull_call ref ∷ calls) = container_calls calls
container_calls (hosts_call ref ∷ calls) = container_calls calls

-- Each of these containers is stopped and then removed, on top of earlier calls.
abbrev pub torn_down : List Container → List Call → List Call
torn_down [] calls = calls
torn_down (c ∷ cs) calls = torn_down cs (remove_call c.id ∷ (stop_call c.id ∷ calls))

after_removal_ind :
    {S : Type 0} (P : Option DownError × State S → Type 0) (id : Text) (x : Option Text × State S)
    (k : State S → Option DownError × State S)
    → ((e : DownError) → P (some e, x.1))
    → P (k x.1)
    → P (after_removal id x k)
after_removal_ind P id (none, s) k fails goes = goes
after_removal_ind P id (some cause, s) k fails goes = fails (DownError.remove_error id cause)

module _ {S : Type 0} (rt : Runtime S) where
  remove_all_lem :
      (cs : List Container) (s : State S)
      → (remove_all rt cs s).0 ≡ none
      → container_calls (remove_all rt cs s).1.calls ≡ torn_down cs (container_calls s.calls)
  unfolding remove_all container_calls
  remove_all_lem [] s = λ h. refl
  remove_all_lem (c ∷ cs) s =
      let removed =
        call (remove_call c.id) (rt.remove_container c.id)
          (tell (stop_call c.id) (rt.stop_container c.id) s) in
      after_removal_ind
        (λ x. x.0 ≡ none → container_calls x.1.calls ≡ torn_down (c ∷ cs) (container_calls s.calls))
        c.id removed (remove_all rt cs) (λ e h. absurd (cc h)) (remove_all_lem cs removed.1)

  container_calls-remove_volumes :
      (project_name : Text) (names : List Text) (s : State S)
      → container_calls (remove_volumes rt project_name names s).calls ≡ container_calls s.calls
  unfolding remove_volumes container_calls
  container_calls-remove_volumes project_name [] s = refl
  container_calls-remove_volumes project_name (v ∷ vs) s =
      let full = project_name ++ (text "_" ++ v) in
      container_calls-remove_volumes project_name vs
        (tell (remove_volume_call full) (rt.remove_volume full) s)

  container_calls-remove_images :
      (ids : List Text) (s : State S)
      → container_calls (remove_images rt ids s).calls ≡ container_calls s.calls
  unfolding remove_images container_calls
  container_calls-remove_images [] s = refl
  container_calls-remove_images (id ∷ ids) s =
      container_calls-remove_images ids (tell (remove_image_call id) (rt.remove_image id) s)

  container_calls-remove_listed :
      (listed : Answer (List Text) × State S)
      → container_calls (remove_listed rt listed).calls ≡ container_calls listed.1.calls
  container_calls-remove_listed (done ids, s) = container_calls-remove_images ids s
  container_calls-remove_listed (fault cause, s) = refl

  -- Networks, volumes and images are removed without a container being touched.
  container_calls-clean_up :
      (plan : DownPlan) (s : State S)
      → container_calls (clean_up rt plan s).calls ≡ container_calls s.calls
  unfolding clean_up container_calls
  container_calls-clean_up plan s =
      let network = plan.project_name ++ text "_default" in
      let s1 = tell (remove_network_call network) (rt.remove_network network) s in
      let s2 =
        if plan.remove_volumes
        then remove_volumes rt plan.project_name (volumes_of plan.project) s1
        else s1 in
      let kept : container_calls s2.calls ≡ container_calls s.calls =
        if_ind {A = State S} (λ x. container_calls x.calls ≡ container_calls s.calls)
          plan.remove_volumes
          (λ _. container_calls-remove_volumes plan.project_name (volumes_of plan.project) s1)
          (λ _. refl) in
      if_ind {A = State S} (λ x. container_calls x.calls ≡ container_calls s.calls)
        plan.remove_images
        (λ _.
          container_calls-remove_listed
            (ask (rt.list_images ((label_project, plan.project_name) ∷ [])) s2)
          ∙ kept)
        (λ _. kept)

  clean_up_after_lem :
      (plan : DownPlan) (cs : List Container) (before : List Call)
      (removed : Option DownError × State S)
      → (removed.0 ≡ none → container_calls removed.1.calls ≡ torn_down cs before)
      → (clean_up_after rt plan removed).0 ≡ none
      → container_calls (clean_up_after rt plan removed).1.calls ≡ torn_down cs before
  clean_up_after_lem plan cs before (some e, s) ran h = absurd (cc h)
  clean_up_after_lem plan cs before (none, s) ran h = container_calls-clean_up plan s ∙ ran refl

  -- What a teardown that succeeds has done: the listed containers are gone, in the order for teardown.
  abbrev pub IsTornDown : DownPlan → Answer (List Container) → (before after : State S) → Type 0
  IsTornDown plan answer before after =
      (listed : List Container) × (answer ≡ done listed)
      × Perm (order_containers_for_teardown listed plan.project) listed
      × (container_calls after.calls
          ≡ torn_down (order_containers_for_teardown listed plan.project)
              (container_calls before.calls))

  down_listed_lem :
      (plan : DownPlan) (answer : Answer (List Container)) (s : State S)
      → (down_listed rt plan (answer, s)).0 ≡ none
      → IsTornDown plan answer s (down_listed rt plan (answer, s)).1
  down_listed_lem plan (fault cause) s h = absurd (cc h)
  down_listed_lem plan (done listed) s h =
      let order = order_containers_for_teardown listed plan.project in
      (
        listed,
        refl,
        order_containers_for_teardown-perm listed plan.project,
        clean_up_after_lem plan order (container_calls s.calls) (remove_all rt order s)
            (remove_all_lem order s) h,
      )

-- A Down that succeeds was given a project name, and has called for nothing on containers but to stop
-- and then to remove each that the runtime lists for the project, as often as it is listed, one
-- container after the other in the order for teardown.
pub down_lem :
    {S : Type 0} (rt : Runtime S) (plan : DownPlan) (s : State S)
    → (down rt plan s).0 ≡ none
    → (plan.project_name ≢ [])
      × IsTornDown rt plan
          (ask (rt.list_containers ((label_project, plan.project_name) ∷ [])) s).0
          s
          (down rt plan s).1
unfolding down
down_lem rt plan s =
    let listing = ask (rt.list_containers ((label_project, plan.project_name) ∷ [])) s in
    if_ind {A = Option DownError × State _}
      (λ x. x.0 ≡ none → (plan.project_name ≢ []) × IsTornDown rt plan listing.0 s x.1)
      (plan.project_name == []) (λ _ h. absurd (cc h))
      (λ named h. (
        λ e. absurd (cc (named, (eq_iff plan.project_name []).1 e)),
        down_listed_lem rt plan listing.0 listing.1 h,
      ))
