-- ===== src/Compose/Orchestrator/Up/Run.antt =====
-- `Up` as a whole: what has been started when it returns.
use devcontainer.Base.{
  ℕ, true, List, [], ◌∷◌, ◌++◌, Option, none, some, Text, text, not, if_ind, keys, contains,
  contains-nil, contains_perm, ◌≡◌, ◌≢◌, refl, inl, inr, arith, sym, ◌∙◌, subst, Option-cases,
}
use mathlib.Core.List.{Perm}
use devcontainer.Compose.Project.{Project, ServiceConfig}
use devcontainer.Compose.Plan.{Refusal, validate}
use devcontainer.Compose.Graph.{
  Level, Sorted, levels_of, cycle_error, nil_project, out_of_fuel, topo_sort,
}
use devcontainer.Compose.Graph.Levels.{topo_sort-levels}
use devcontainer.Compose.Graph.Cycles.{ErrorFits, topo_sort-ErrorFits}
use devcontainer.Compose.Runtime.{Answer, done, fault, Runtime, State, network_call, volume_call}
use devcontainer.Compose.RunSpec.{project_labels_of}
use devcontainer.Compose.Orchestrator.{Plan, call}
use devcontainer.Compose.Orchestrator.Up.{
  LevelRun, UpResult, UpError, finish_level, run_levels, start_level, make_keep_set, result_of,
  up_with_volumes, up_with_network, used_volumes, up_sorted, up_project, up_graph, up_validated, up,
  stuck, no_containers, create_volumes, ensure_named_volumes,
}
use devcontainer.Compose.Orchestrator.Up.Order.{IsStartOrder}
use devcontainer.Compose.Orchestrator.Up.Keep.{
  IsAskedFor, make_keep_set-IsClosed, contains-make_keep_set, make_keep_set-total,
}
use devcontainer.Compose.Orchestrator.Up.Loop.{and_then_level_ind, run_levels_lem}

module _ {S : Type 0} (rt : Runtime S) (digest : Text → ServiceConfig → Text) (plan : Plan)
    (project : Project) (rounds health_timeout : ℕ) (schedule : Level → List Text)
    (perm : (level : Level) → Perm (schedule level) level) where
  record IsRun (out : (UpResult × Option UpError) × State S) : Type 0 where
    order : IsStartOrder project.services [] (keys out.0.0.container_ids)
    all :
        out.0.1 ≡ none
        → (x : Text) → contains (keys project.services) x ≡ true
        → IsAskedFor project plan.services x
        → contains (keys out.0.0.container_ids) x ≡ true
    returns : out.0.1 ≢ some stuck

  finish_level_returns :
      (keep : List Text) (level : Level) (r : LevelRun S)
      → (finish_level rt digest plan project keep rounds health_timeout schedule level r).0
        ≢ some stuck
  unfolding finish_level
  finish_level_returns keep level r h = ground arith

  run_levels_returns :
      (keep : List Text) (levels : List Level) (r : LevelRun S)
      → (run_levels rt digest plan project keep rounds health_timeout schedule levels r).0
        ≢ some stuck
  unfolding run_levels
  run_levels_returns keep [] r = λ h. cc h
  run_levels_returns keep (level ∷ levels) r =
      let finished =
        finish_level rt digest plan project keep rounds health_timeout schedule level
          (start_level rt digest plan project keep (schedule level) r) in
      and_then_level_ind (λ x. x.0 ≢ some stuck) finished
        (run_levels rt digest plan project keep rounds health_timeout schedule levels)
        (λ e same h.
          finish_level_returns keep level
            (start_level rt digest plan project keep (schedule level) r) (same ∙ h))
        (λ _. run_levels_returns keep levels finished.1)

  create_volumes_returns :
      (declared used : List Text) (s : State S)
      → (create_volumes rt plan.project_name declared used s).0 ≢ some stuck
  unfolding create_volumes
  create_volumes_returns declared [] s = λ h. cc h
  create_volumes_returns declared (name ∷ used) s =
      let full = plan.project_name ++ (text "_" ++ name) in
      let made =
        call (volume_call full)
          (rt.create_volume full
            ((text "com.docker.compose.volume", name) ∷ project_labels_of plan.project_name))
          s in
      if_ind {A = Option UpError × State S} (λ x. x.0 ≢ some stuck) (not (contains declared name))
        (λ _. create_volumes_returns declared used s)
        (λ _ h. elim (Option-cases made.0) [
          | inl ok ↦ create_volumes_returns declared used made.1 (rw ok at h)
          | inr (cause, e) ↦ cc (rw e at h)
        ])

  up_with_volumes-IsRun :
      (network : Text) (keep : List Text) (levels : List Level) (made : Option UpError × State S)
      → make_keep_set project plan.services ≡ some keep
      → topo_sort (some project) ≡ levels_of levels
      → made.0 ≢ some stuck
      → IsRun (
          up_with_volumes rt digest plan project rounds health_timeout schedule network keep levels
            made)
  unfolding up_with_volumes result_of
  up_with_volumes-IsRun network keep levels (some e, s) kept sorted made = record {
    order = tt;
    all = λ h. absurd (cc h);
    returns = made;
  }
  up_with_volumes-IsRun network keep levels (none, s) kept sorted made =
      let (placed, leveled, _) = topo_sort-levels project levels sorted in
      let (order, all) =
        run_levels_lem rt digest plan project keep rounds health_timeout schedule
          (make_keep_set-IsClosed project plan.services keep kept) perm levels [] (no_containers s)
          leveled (record { order = tt; there = λ x m. absurd (contains-nil x m) }) in
      record {
        order = order;
        all = λ ok x is asked.
            (all ok).there x (contains_perm x placed ∙ is)
              (contains-make_keep_set project plan.services keep x kept is asked) is;
        returns = run_levels_returns keep levels (no_containers s);
      }

  up_with_network-IsRun :
      (keep : List Text) (levels : List Level) (made : Answer Text × State S)
      → make_keep_set project plan.services ≡ some keep
      → topo_sort (some project) ≡ levels_of levels
      → IsRun
          (up_with_network rt digest plan project rounds health_timeout schedule keep levels made)
  unfolding up_with_network ensure_named_volumes
  up_with_network-IsRun keep levels (fault cause, s) kept sorted = record {
    order = tt;
    all = λ h. absurd (cc h);
    returns = λ h. cc h;
  }
  up_with_network-IsRun keep levels (done network, s) kept sorted =
      up_with_volumes-IsRun network keep levels
        (ensure_named_volumes rt project plan.project_name s) kept sorted
        (create_volumes_returns (keys project.volumes) (used_volumes [] project.services) s)

  up_graph-IsRun :
      (sorted : Sorted) (keep : Option (List Text)) (s : State S)
      → topo_sort (some project) ≡ sorted
      → make_keep_set project plan.services ≡ keep
      → IsRun (up_graph rt digest plan project rounds health_timeout schedule sorted keep s)
  unfolding up_graph up_sorted
  up_graph-IsRun (levels_of levels) (some keep) s e k =
      up_with_network-IsRun keep levels
        (call (network_call (plan.project_name ++ text "_default"))
          (rt.create_network (plan.project_name ++ text "_default")
            (project_labels_of plan.project_name))
          s)
        k e
  up_graph-IsRun (levels_of levels) none s e k =
      absurd (cc (k, (make_keep_set-total project plan.services).1))
  up_graph-IsRun (cycle_error cycle) keep s e k = record {
    order = tt;
    all = λ h. absurd (cc h);
    returns = λ h. absurd (cc h);
  }
  up_graph-IsRun nil_project keep s e k =
      absurd (subst (ErrorFits project.services) e (topo_sort-ErrorFits project))
  up_graph-IsRun out_of_fuel keep s e k =
      absurd (subst (ErrorFits project.services) e (topo_sort-ErrorFits project))

module _ {S : Type 0} (rt : Runtime S) (digest : Text → ServiceConfig → Text) (plan : Plan)
    (project : Project) (rounds health_timeout : ℕ) (schedule : Level → List Text)
    (perm : (level : Level) → Perm (schedule level) level) where
  up_validated-IsRun :
      (refusal : Option Refusal) (found : Option Project) (s : State S)
      → found ≡ some project
      → IsRun rt digest plan project rounds health_timeout schedule perm
          (up_validated rt digest plan rounds health_timeout schedule refusal found s)
  unfolding up_validated up_project
  up_validated-IsRun (some refusal) found s e = record {
    order = tt;
    all = λ h. absurd (cc h);
    returns = λ h. absurd (cc h);
  }
  up_validated-IsRun none none s e = absurd (cc e)
  up_validated-IsRun none (some p) s e =
      subst
        (λ f.
          IsRun rt digest plan project rounds health_timeout schedule perm
            (up_validated rt digest plan rounds health_timeout schedule none f s))
        (sym e)
        (up_graph-IsRun rt digest plan project rounds health_timeout schedule perm
          (topo_sort (some project)) (make_keep_set project plan.services) s refl refl)

-- Whatever made `Up` return, each service that has got a container stands behind all the services that
-- it depends on, in the order in which they got theirs; and the loops of the service graph never run
-- out. The plan has a project, and the goroutines of a level run in any order.
pub up_lem :
    {S : Type 0} (rt : Runtime S) (digest : Text → ServiceConfig → Text) (plan : Plan)
    (project : Project) (rounds health_timeout : ℕ) (schedule : Level → List Text) (s : State S)
    → ((level : Level) → Perm (schedule level) level)
    → plan.project ≡ some project
    → let (res, err) = (up rt digest plan rounds health_timeout schedule s).0 in
      IsStartOrder project.services [] (keys res.container_ids) × (err ≢ some stuck)
unfolding up
up_lem rt digest plan project rounds health_timeout schedule s perm given =
    let run =
      up_validated-IsRun rt digest plan project rounds health_timeout schedule perm
        (validate rt.capabilities plan.project) plan.project s given in
    (run.order, run.returns)

-- When `Up` reports no error, every service of the project that the plan asks for has a container: all
-- of them if the plan names none, and else those that are named or reached from a named one.
pub up_complete :
    {S : Type 0} (rt : Runtime S) (digest : Text → ServiceConfig → Text) (plan : Plan)
    (project : Project) (rounds health_timeout : ℕ) (schedule : Level → List Text) (s : State S)
    (name : Text)
    → ((level : Level) → Perm (schedule level) level)
    → plan.project ≡ some project
    → (up rt digest plan rounds health_timeout schedule s).0.1 ≡ none
    → contains (keys project.services) name ≡ true
    → IsAskedFor project plan.services name
    → contains (keys (up rt digest plan rounds health_timeout schedule s).0.0.container_ids) name
      ≡ true
unfolding up
up_complete rt digest plan project rounds health_timeout schedule s name perm given fine is asked =
    let run =
      up_validated-IsRun rt digest plan project rounds health_timeout schedule perm
        (validate rt.capabilities plan.project) plan.project s given in
    run.all fine name is asked
