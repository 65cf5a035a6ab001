-- ===== src/Compose/Orchestrator/Down.antt =====
-- compose/orchestrator.go: Down, the teardown of a project.
pub mod Teardown
mod Removal
mod Samples
use devcontainer.Base.{
  ℕ, zero, suc, ◌+◌, Bool, true, false, not, ◌&&◌, List, [], ◌∷◌, ◌++◌, Option, none, some, Text,
  text, ◌==◌, Map, keys, lookup, insert, contains, map, nat_beq, ltb, text_ltb, sort_by,
  if◌then◌else◌,
}
use devcontainer.Compose.Project.{Project}
use devcontainer.Compose.Graph.{
  Level, Sorted, levels_of, cycle_error, nil_project, out_of_fuel, topo_sort,
}
use devcontainer.Compose.Runtime.{
  Container, Answer, done, fault, Runtime, State, stop_call, remove_call, remove_network_call,
  remove_volume_call, remove_image_call,
}
use devcontainer.Compose.RunSpec.{label_project, label_service}
use devcontainer.Compose.Orchestrator.{text_at, ask, call, tell}

pub record DownPlan : Type 0 where
  pub project_name : Text
  pub remove_volumes : Bool
  pub remove_images : Bool
  pub project : Option Project

pub data DownError : Type 0 where
  project_name_required : DownError
  list_error : (cause : Text) → DownError
  remove_error : (id cause : Text) → DownError

pub service_label_of : Container → Text
service_label_of c =
    if text_at label_service c.labels == [] then c.name else text_at label_service c.labels

-- `levelIdx[name]`, which is 0 for a name that is in no level.
pub level_index_from : ℕ → List Level → Text → ℕ
level_index_from i [] name = 0
level_index_from i (level ∷ levels) name =
    let rest = level_index_from (suc i) levels name in if contains level name then i else rest

pub level_index : List Level → Container → ℕ
level_index levels c = level_index_from 0 levels (service_label_of c)

abbrev pub name_less : Container → Container → Bool
name_less a b = text_ltb a.name b.name

-- Later levels first, and names within a level.
pub teardown_less : List Level → Container → Container → Bool
teardown_less levels a b =
    if nat_beq (level_index levels a) (level_index levels b)
    then name_less a b
    else ltb (level_index levels b) (level_index levels a)

abbrev pub order_by_levels : Sorted → List Container → List Container
order_by_levels (levels_of levels) cs = sort_by (teardown_less levels) cs
order_by_levels (cycle_error cycle) cs = sort_by name_less cs
order_by_levels nil_project cs = sort_by name_less cs
order_by_levels out_of_fuel cs = sort_by name_less cs

pub order_containers_for_teardown : List Container → Option Project → List Container
order_containers_for_teardown cs none = sort_by name_less cs
order_containers_for_teardown cs (some project) = order_by_levels (topo_sort (some project)) cs

abbrev pub volumes_of : Option Project → List Text
volumes_of none = []
volumes_of (some project) = keys project.volumes

-- `if err != nil { return fmt.Errorf(…) }`
abbrev pub after_removal :
    {S : Type 0}
    → (id : Text) → Option Text × State S
    → (State S → Option DownError × State S)
    → Option DownError × State S
after_removal id (none, s) k = k s
after_removal id (some cause, s) k = (some (remove_error id cause), s)

module _ {S : Type 0} (rt : Runtime S) where
  pub remove_all : List Container → State S → Option DownError × State S
  remove_all [] s = (none, s)
  remove_all (c ∷ cs) s =
      after_removal c.id
        (call (remove_call c.id) (rt.remove_container c.id)
          (tell (stop_call c.id) (rt.stop_container c.id) s))
        (remove_all cs)

  pub remove_volumes : (project_name : Text) → List Text → State S → State S
  remove_volumes project_name [] s = s
  remove_volumes project_name (v ∷ vs) s =
      let full = project_name ++ (text "_" ++ v) in
      remove_volumes project_name vs (tell (remove_volume_call full) (rt.remove_volume full) s)

  pub remove_images : List Text → State S → State S
  remove_images [] s = s
  remove_images (id ∷ ids) s =
      remove_images ids (tell (remove_image_call id) (rt.remove_image id) s)

  abbrev pub remove_listed : Answer (List Text) × State S → State S
  remove_listed (done ids, s) = remove_images ids s
  remove_listed (fault cause, s) = s

  -- What is left to do when the containers are gone; no error of it is reported.
  pub clean_up : DownPlan → State S → State S
  clean_up plan s =
      let network = plan.project_name ++ text "_default" in
      let filter = (label_project, plan.project_name) ∷ [] in
      let s1 = tell (remove_network_call network) (rt.remove_network network) s in
      let s2 =
        if plan.remove_volumes
        then remove_volumes plan.project_name (volumes_of plan.project) s1
        else s1 in
      if plan.remove_images then remove_listed (ask (rt.list_images filter) s2) else s2

  abbrev pub clean_up_after : DownPlan → Option DownError × State S → Option DownError × State S
  clean_up_after plan (some e, s) = (some e, s)
  clean_up_after plan (none, s) = (none, clean_up plan s)

  abbrev pub down_listed : DownPlan → Answer (List Container) × State S → Option DownError × State S
  down_listed plan (fault cause, s) = (some (list_error cause), s)
  down_listed plan (done cs, s) =
      clean_up_after plan (remove_all (order_containers_for_teardown cs plan.project) s)

  pub down : DownPlan → State S → Option DownError × State S
  down plan s =
      if plan.project_name == []
      then (some project_name_required, s)
      else down_listed plan (ask (rt.list_containers ((label_project, plan.project_name) ∷ [])) s)
