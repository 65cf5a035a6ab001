-- ===== src/Compose/Orchestrator/Up.antt =====
-- compose/orchestrator.go: Up, level by level.
mod Order
mod Keep
mod Loop
mod Run
mod Samples
use devcontainer.Base.{
  ℕ, Bool, true, false, not, ◌&&◌, ◌||◌, List, [], ◌∷◌, ◌++◌, Option, none, some, Text, text, ◌==◌,
  Map, keys, lookup, insert, contains, sort, map, is_empty, if◌then◌else◌,
}
use devcontainer.Compose.Project.{Project, ServiceConfig, ServiceVolumeConfig}
use devcontainer.Compose.Plan.{Refusal, validate}
use devcontainer.Compose.Graph.{
  Level, Sorted, levels_of, cycle_error, nil_project, out_of_fuel, topo_sort, service_closure,
}
use devcontainer.Compose.Runtime.{
  Answer, done, fault, ContainerDetails, Runtime, State, network_call, volume_call, hosts_call,
}
use devcontainer.Compose.RunSpec.{project_labels_of}
use devcontainer.Compose.Orchestrator.{
  Plan, ServiceError, Ensured, ensured, failed, text_at, ask, call, tell, ensure_service,
}
use devcontainer.Compose.Orchestrator.Gates.{GateError, gate_level}

-- The errors of `Up`; the last one is that the loops of the service graph ran out of fuel.
pub data UpError : Type 0 where
  refused : Refusal → UpError
  cyclic : List Text → UpError
  network_error : (cause : Text) → UpError
  volume_error : (name cause : Text) → UpError
  partial_up : (started : List Text) (service : Text) → ServiceError → UpError
  not_gated : GateError → UpError
  stuck : UpError

pub record UpResult : Type 0 where
  pub container_ids : Map Text
  pub network : Text

-- The names of the volumes that services mount, each once.
pub add_used : List Text → List ServiceVolumeConfig → List Text
add_used used [] = used
add_used used (v ∷ vs) =
    add_used
      (if (v.type == text "volume") && not (v.source == []) && not (contains used v.source)
        then used ++ v.source ∷ []
        else used)
      vs

pub used_volumes : List Text → Map ServiceConfig → List Text
used_volumes used [] = used
used_volumes used ((_, svc) ∷ services) = used_volumes (add_used used svc.volumes) services

-- `makeKeepSet`; none means that the closure ran out of fuel.
pub make_keep_set : Project → (services : List Text) → Option (List Text)
make_keep_set project services =
    if is_empty services
    then some (keys project.services)
    else service_closure (some project) services

-- The lines for the hosts file: an address, a tab and a name each.
pub host_lines : Map Text → List Text → Text
host_lines ips [] = []
host_lines ips (n ∷ names) = text_at n ips ++ (b'\t' ∷ (n ++ (b'\n' ∷ host_lines ips names)))

pub render_hosts_block : Map Text → Text
render_hosts_block ips =
    text "# devcontainer-go compose hosts patch\n" ++ host_lines ips (sort (keys ips))

abbrev pub ip_of : Option ContainerDetails → Text
ip_of none = []
ip_of (some d) = text_at (text "dev.containers.network-ip") d.labels

-- A level as it runs: the containers so far, the first failure in the level, and the state.
pub record LevelRun (S : Type 0) : Type 0 where
  pub ids : Map Text
  pub first : Option (Text × ServiceError)
  pub state : State S

abbrev pub or_first :
    Option (Text × ServiceError) → Text × ServiceError → Option (Text × ServiceError)
or_first none f = some f
or_first (some f) g = some f

abbrev pub no_containers : {S : Type 0} → State S → LevelRun S
no_containers s = record { ids = []; first = none; state = s }

abbrev pub no_result : UpResult
no_result = record { container_ids = []; network = [] }

-- A level that fails ends the loop.
abbrev pub and_then_level :
    {S : Type 0}
    → Option UpError × LevelRun S
    → (LevelRun S → Option UpError × LevelRun S)
    → Option UpError × LevelRun S
and_then_level (some e, r) k = (some e, r)
and_then_level (none, r) k = k r

module _ {S : Type 0} (rt : Runtime S) where
  pub create_volumes :
      (project_name : Text)
      → (declared : List Text) → List Text
      → State S
      → Option UpError × State S
  create_volumes project_name declared [] s = (none, s)
  create_volumes project_name declared (name ∷ used) s =
      let full = project_name ++ (text "_" ++ name) in
      let labels = (text "com.docker.compose.volume", name) ∷ project_labels_of project_name in
      let (err, s') = call (volume_call full) (rt.create_volume full labels) s in
      let skipped = create_volumes project_name declared used s in
      let made = create_volumes project_name declared used s' in
      if not (contains declared name)
      then skipped
      else elim err [ none ↦ made | some cause ↦ (some (volume_error name cause), s') ]

  pub ensure_named_volumes : Project → (project_name : Text) → State S → Option UpError × State S
  ensure_named_volumes project project_name s =
      create_volumes project_name (keys project.volumes) (used_volumes [] project.services) s

  -- The addresses of the containers that have one.
  pub gather_ips : Map Text → State S → Map Text × State S
  gather_ips [] s = ([], s)
  gather_ips ((svc, id) ∷ ids) s =
      let (d, s') = ask (rt.inspect_container id) s in
      let (ips, s'') = gather_ips ids s' in
      (if ip_of d == [] then ips else insert svc (ip_of d) ips, s'')

  pub append_all : (block : Text) → Map Text → State S → State S
  append_all block [] s = s
  append_all block ((_, id) ∷ ids) s =
      append_all block ids (tell (hosts_call id) (rt.append_hosts id block) s)

  pub patch_hosts_files : Map Text → State S → State S
  patch_hosts_files ids s =
      let (ips, s') = gather_ips ids s in
      if is_empty ips then s' else append_all (render_hosts_block ips) ids s'

  module _ (digest : Text → ServiceConfig → Text) (plan : Plan) (project : Project)
      (keep : List Text) where
    -- What the goroutine of one service leaves behind.
    pub record_service : Text → Ensured × State S → LevelRun S → LevelRun S
    record_service name (ensured id, s) r = record r { ids = insert name id r.ids; state = s }
    record_service name (failed e, s) r = record r { first = or_first r.first (name, e); state = s }

    pub start_found : Text → Option ServiceConfig → LevelRun S → LevelRun S
    start_found name none r = r
    start_found name (some svc) r =
        record_service name (ensure_service rt digest plan svc (λ n. text_at n r.ids) r.state) r

    pub start_service : Text → LevelRun S → LevelRun S
    start_service name r =
        if contains keep name then start_found name (lookup name project.services) r else r

    -- The services of a level in the order in which their goroutines get to run.
    pub start_level : List Text → LevelRun S → LevelRun S
    start_level [] r = r
    start_level (name ∷ names) r = start_level names (start_service name r)

    -- The loop of `Up` over the levels; `schedule` is the order in which a level's goroutines run.
    module _ (rounds health_timeout : ℕ) (schedule : Level → List Text) where
      pub finish_level : Level → LevelRun S → Option UpError × LevelRun S
      finish_level level r = elim r.first [
        | some (service, e) ↦ (some (partial_up (sort (keys r.ids)) service e), r)
        | none ↦
            let (err, s) = gate_level rt rounds health_timeout project level r.ids keep r.state in
            elim err [
              | some e ↦ (some (not_gated e), record r { state = s })
              | none ↦ (
                none,
                record r {
                  state = if rt.capabilities.service_name_dns then s else patch_hosts_files r.ids s;
                },
              )
            ]
      ]

      pub run_levels : List Level → LevelRun S → Option UpError × LevelRun S
      run_levels [] r = (none, r)
      run_levels (level ∷ levels) r =
          and_then_level (finish_level level (start_level (schedule level) r)) (run_levels levels)

  -- What `Up` does behind its validation, with the kept services and the sorted levels.
  module _ (digest : Text → ServiceConfig → Text) (plan : Plan) (project : Project)
      (rounds health_timeout : ℕ) (schedule : Level → List Text) where
    pub result_of :
        (network : Text) → Option UpError × LevelRun S → (UpResult × Option UpError) × State S
    result_of network (err, r) =
        ((record { container_ids = r.ids; network = network }, err), r.state)

    pub up_with_volumes :
        (network : Text)
        → List Text
        → List Level
        → Option UpError × State S
        → (UpResult × Option UpError) × State S
    up_with_volumes network keep levels (some e, s) = result_of network (some e, no_containers s)
    up_with_volumes network keep levels (none, s) = result_of network (
        run_levels digest plan project keep rounds health_timeout schedule levels (no_containers s))

    pub up_with_network :
        List Text → List Level → Answer Text × State S → (UpResult × Option UpError) × State S
    up_with_network keep levels (fault cause, s) = ((no_result, some (network_error cause)), s)
    up_with_network keep levels (done network, s) =
        up_with_volumes network keep levels (ensure_named_volumes project plan.project_name s)

    pub up_sorted : List Text → List Level → State S → (UpResult × Option UpError) × State S
    up_sorted keep levels s =
        let name = plan.project_name ++ text "_default" in
        up_with_network keep levels (
          call (network_call name) (rt.create_network name (project_labels_of plan.project_name)) s)

    -- `none` for the kept services, and the last two results of `TopoSort`, are not of the code.
    pub up_graph :
        Sorted → (keep : Option (List Text)) → State S → (UpResult × Option UpError) × State S
    up_graph (levels_of levels) (some keep) s = up_sorted keep levels s
    up_graph (levels_of levels) none s = ((no_result, some stuck), s)
    up_graph (cycle_error cycle) keep s = ((no_result, some (cyclic cycle)), s)
    up_graph nil_project keep s = ((no_result, some stuck), s)
    up_graph out_of_fuel keep s = ((no_result, some stuck), s)

    pub up_project : State S → (UpResult × Option UpError) × State S
    up_project s = up_graph (topo_sort (some project)) (make_keep_set project plan.services) s

  module _ (digest : Text → ServiceConfig → Text) (plan : Plan) (rounds health_timeout : ℕ)
      (schedule : Level → List Text) where
    pub up_validated :
        Option Refusal → Option Project → State S → (UpResult × Option UpError) × State S
    up_validated (some refusal) project s = ((no_result, some (refused refusal)), s)
    up_validated none none s = ((no_result, some stuck), s)
    up_validated none (some project) s =
        up_project digest plan project rounds health_timeout schedule s

    pub up : State S → (UpResult × Option UpError) × State S
    up s = up_validated (validate rt.capabilities plan.project) plan.project s
