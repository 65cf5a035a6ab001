-- ===== src/Compose/Orchestrator/Up/Loop.antt =====
-- The loop over the levels: the order in which services get their containers, and which of them do.
use devcontainer.Base.{
  ℕ, true, List, [], ◌∷◌, ◌++◌, Option, none, some, Text, keys, contains, flatten, contains-append,
  contains_perm, ◌≡◌, refl, inl, inr, arith, sym, ◌∙◌, Bool-cases,
}
use mathlib.Core.List.{Perm, append_assoc, append-nil}
use devcontainer.Compose.Project.{Project, ServiceConfig}
use devcontainer.Compose.Graph.{Level}
use devcontainer.Compose.Graph.Levels.{IsLeveled}
use devcontainer.Compose.Runtime.{Runtime}
use devcontainer.Compose.Orchestrator.{Plan}
use devcontainer.Compose.Orchestrator.Up.{
  LevelRun, UpError, and_then_level, finish_level, run_levels, start_level,
}
use devcontainer.Compose.Orchestrator.Up.Order.{
  IsStartOrder, IsClosed, LevelDone, start_level-LevelDone,
}

pub and_then_level_ind :
    {S : Type 0} (P : Option UpError × LevelRun S → Type 0) (x : Option UpError × LevelRun S)
    (k : LevelRun S → Option UpError × LevelRun S)
    → ((e : UpError) → x.0 ≡ some e → P (some e, x.1))
    → (x.0 ≡ none → P (k x.1))
    → P (and_then_level x k)
and_then_level_ind P (some e, r) k fails goes = fails e refl
and_then_level_ind P (none, r) k fails goes = goes refl

module _ {S : Type 0} (rt : Runtime S) (digest : Text → ServiceConfig → Text) (plan : Plan)
    (project : Project) (keep : List Text) (rounds health_timeout : ℕ)
    (schedule : Level → List Text) where
  finish_level_ids :
      (level : Level) (r : LevelRun S)
      → (finish_level rt digest plan project keep rounds health_timeout schedule level r).1.ids
        ≡ r.ids
  unfolding finish_level
  finish_level_ids level r = ground arith

  finish_level_first :
      (level : Level) (r : LevelRun S)
      → (finish_level rt digest plan project keep rounds health_timeout schedule level r).0 ≡ none
      → (r.first ≡ none)
        × ((finish_level rt digest plan project keep rounds health_timeout schedule level r).1.first
            ≡ none)
  unfolding finish_level
  finish_level_first level r h = ground arith

  pub record RunInv (before : List Text) (r : LevelRun S) : Type 0 where
    pub order : IsStartOrder project.services [] (keys r.ids)
    pub there :
        (x : Text)
        → contains before x ≡ true
        → contains keep x ≡ true
        → contains (keys project.services) x ≡ true
        → contains (keys r.ids) x ≡ true

  reached :
      {level before : List Text} {r r1 : LevelRun S}
      → LevelDone rt digest plan project keep (schedule level) r r1
      → ((a : Text) → contains (schedule level) a ≡ contains level a)
      → r1.first ≡ none
      → RunInv before r
      → (x : Text) → contains (before ++ level) x ≡ true
      → contains keep x ≡ true
      → contains (keys project.services) x ≡ true
      → contains (keys r1.ids) x ≡ true
  reached {level} {before} ran in_level quiet inv x m k is = elim (Bool-cases (contains before x)) [
    | inl old ↦ ran.grows x (inv.there x old k is)
    | inr new ↦
        ran.filled quiet x (in_level x ∙ ground (arith, contains-append before level x, m, new)) k
          is
  ]

  -- Whatever ends the loop, services are started in order; and all of them are if nothing fails.
  pub run_levels_lem :
      IsClosed project.services keep
      → ((level : Level) → Perm (schedule level) level)
      → (levels : List Level) (before : List Text) (r : LevelRun S)
      → IsLeveled project.services before levels
      → RunInv before r
      → let (err, r') =
          run_levels rt digest plan project keep rounds health_timeout schedule levels r in
        IsStartOrder project.services [] (keys r'.ids)
        × (err ≡ none → RunInv (before ++ flatten levels) r')
  unfolding run_levels
  run_levels_lem closed perm [] before r leveled inv = (inv.order, λ _. rw append-nil inv)
  run_levels_lem closed perm (level ∷ levels) before r leveled inv =
      let r1 = start_level rt digest plan project keep (schedule level) r in
      let in_level = λ (a : Text). contains_perm a (perm level) in
      let ran =
        start_level-LevelDone rt digest plan project keep (schedule level) r
          (λ a b m k e.
            inv.there b (leveled.0 a b (sym (in_level a) ∙ m) e) (closed a b k e) e.is_service)
          inv.order in
      let finished =
        finish_level rt digest plan project keep rounds health_timeout schedule level r1 in
      let same = finish_level_ids level r1 in
      and_then_level_ind
        (λ x.
          IsStartOrder project.services [] (keys x.1.ids)
          × (x.0 ≡ none → RunInv (before ++ flatten (level ∷ levels)) x.1))
        finished (run_levels rt digest plan project keep rounds health_timeout schedule levels)
        (λ e _. (rw same ran.order, λ h. absurd (cc h)))
        (λ ok.
          let ended = finish_level_first level r1 ok in
          let after : RunInv (before ++ level) finished.1 = record {
            order = rw same ran.order;
            there = λ x m k is. rw same (reached ran in_level ended.0 inv x m k is);
          } in
          let (order, all) =
            run_levels_lem closed perm levels (before ++ level) finished.1 leveled.1 after in
          (order, λ h. rw append_assoc at (all h)))
