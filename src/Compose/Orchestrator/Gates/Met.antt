-- ===== src/Compose/Orchestrator/Gates/Met.antt =====
-- The gate behind a level: how it ends, and what it means that it is passed.
use devcontainer.Base.{
  refl, ℕ, suc, ◌+◌, ◌<◌, true, false, ◌||◌, ◌&&◌, not, List, [], ◌∷◌, Option, none, some, Text,
  ◌==◌, eq_of_==, Map, lookup, contains, ◌≡◌, ◌≢◌, inl, inr, ap, sym, ◌∙◌, subst, if_ind,
  Bool-cases, arith,
}
use devcontainer.Compose.Project.{Project, ServiceConfig}
use devcontainer.Compose.Graph.{Level}
use devcontainer.Compose.Runtime.{Runtime, State}
use devcontainer.Compose.Orchestrator.{text_at}
use devcontainer.Compose.Orchestrator.Gates.{
  Requirement, GateError, satisfied, out_of_rounds, Waited, declared_by, is_satisfied, is_out,
  is_gated, wait_for, requirements, gates, gate_level,
}
use devcontainer.Compose.Orchestrator.Gates.Waits.{
  IsClock, WasMet, WasMet-Later, now-Later, wait_for-ends, wait_for-Later, wait_for-Meets,
}
use devcontainer.Compose.Orchestrator.Gates.Requirements.{
  lookup-nothing, IsNeeded, requirements-strictly, requirements-IsNeeded,
}

is_satisfied_only : (reason : Waited) → is_satisfied reason ≡ true → reason ≡ satisfied
is_satisfied_only reason h = ground arith

module _ {S : Type 0} (rt : Runtime S) (rounds : ℕ) (services : Map ServiceConfig) (ids : Map Text)
    (deadline : ℕ) where
  -- The strict requirements that have a container were met.
  abbrev AreMet : Map Requirement → S → Type 0
  AreMet required start =
      (name : Text) (req : Requirement)
      → lookup name required ≡ some req
      → req.optional ≡ false
      → text_at name ids ≢ []
      → WasMet rt start (text_at name ids) req.condition (declared_by (lookup name services))

  AreMet-cons :
      (key : Text) (first : Requirement) (required : Map Requirement) (start : S)
      → (first.optional ≡ false
          → text_at key ids ≢ []
          → WasMet rt start (text_at key ids) first.condition (declared_by (lookup key services)))
      → AreMet required start
      → AreMet ((key, first) ∷ required) start
  unfolding lookup
  AreMet-cons key first required start here there name req found strict started =
      elim (Bool-cases (key == name)) [
        | inl same ↦
            let e : first ≡ req = cc (rw same at found) in
            subst
              (λ k. WasMet rt start (text_at k ids) req.condition (declared_by (lookup k services)))
              (eq_of_== key name same)
              (subst
                (λ r.
                  WasMet rt start (text_at key ids) r.condition (declared_by (lookup key services)))
                e
                (here (ap (λ r. r.optional) e ∙ strict)
                  (λ h. started (ap (λ k. text_at k ids) (sym (eq_of_== key name same)) ∙ h))))
        | inr other ↦ there name req (rw other at found) strict started
      ]

  -- The gate's loop is passed only if each strict requirement was met.
  gates-AreMet :
      (required : Map Requirement) (s : State S)
      → (gates rt rounds services ids deadline required s).0 ≡ none
      → AreMet required s.world
  unfolding gates
  gates-AreMet [] s = λ h name req found. absurd (lookup-nothing name req found)
  gates-AreMet ((key, first) ∷ required) s =
      let declares = declared_by (lookup key services) in
      let (reason, s') =
        wait_for rt rounds (text_at key ids) first.condition declares deadline false s in
      let later =
        wait_for-Later rt rounds (text_at key ids) first.condition declares deadline false s in
      if_ind {A = Option GateError × State S}
        (λ x. x.0 ≡ none → AreMet ((key, first) ∷ required) s.world) (text_at key ids == [])
        (λ missing h.
          AreMet-cons key first required s.world
            (λ _ started. absurd (started (eq_of_== (text_at key ids) [] missing)))
            (gates-AreMet required s h))
        (λ _.
          if_ind {A = Option GateError × State S}
            (λ x. x.0 ≡ none → AreMet ((key, first) ∷ required) s.world)
            (is_satisfied reason || (first.optional && not (is_out reason)))
            (λ passed h.
              AreMet-cons key first required s.world
                (λ strict _.
                  wait_for-Meets rt rounds (text_at key ids) first.condition declares deadline false
                    s (is_satisfied_only reason (ground (arith, passed, strict))))
                (λ name req found strict started.
                  WasMet-Later rt later (gates-AreMet required s' h name req found strict started)))
            (λ _ h. absurd (cc h)))

  -- No wait of the gate, be it for an optional requirement, runs out of rounds.
  gates-ends :
      IsClock rt
      → (required : Map Requirement) (s : State S) → deadline < rounds + rt.now s.world
      → (e : GateError) → (gates rt (suc rounds) services ids deadline required s).0 ≡ some e
      → e.reason ≢ out_of_rounds
  unfolding gates
  gates-ends clock [] s enough = λ e h. absurd (cc h)
  gates-ends clock ((key, req) ∷ required) s enough =
      let declares = declared_by (lookup key services) in
      let (reason, s') =
        wait_for rt (suc rounds) (text_at key ids) req.condition declares deadline false s in
      let later =
        wait_for-Later rt (suc rounds) (text_at key ids) req.condition declares deadline false s in
      let goes_on = now-Later rt clock later in
      if_ind {A = Option GateError × State S}
        (λ x. (e : GateError) → x.0 ≡ some e → e.reason ≢ out_of_rounds) (text_at key ids == [])
        (λ _. gates-ends clock required s enough)
        (λ _.
          if_ind {A = Option GateError × State S}
            (λ x. (e : GateError) → x.0 ≡ some e → e.reason ≢ out_of_rounds)
            (is_satisfied reason || (req.optional && not (is_out reason)))
            (λ _. gates-ends clock required s' (omega arith))
            (λ _ e h same.
              wait_for-ends rt clock rounds (text_at key ids) req.condition declares deadline false
                s enough (cc (h, same))))

abbrev pub reason_of : Option GateError → Option Waited
reason_of none = none
reason_of (some e) = some e.reason

reason_of-ne :
    (o : Option GateError) (reason : Waited)
    → ((e : GateError) → o ≡ some e → e.reason ≢ reason)
    → ¬ (reason_of o ≡ some reason)
reason_of-ne none reason h same = cc same
reason_of-ne (some e) reason h same = h e refl (cc same)

-- No wait of the gate behind a level goes on for ever, neither for a strict requirement nor for an
-- optional one: where the time goes on with each sleep and does not go back, more rounds than the
-- timeout has units of time, and one more, are enough for each.
pub gate_level_ends :
    {S : Type 0} (rt : Runtime S) (rounds health_timeout : ℕ) (project : Project) (level : Level)
    (ids : Map Text) (keep : List Text) (s : State S)
    → IsClock rt
    → health_timeout < rounds
    → ¬ (
        reason_of (gate_level rt (suc rounds) health_timeout project level ids keep s).0
        ≡ some out_of_rounds)
unfolding gate_level
gate_level_ends rt rounds health_timeout project level ids keep s clock enough =
    reason_of-ne (gate_level rt (suc rounds) health_timeout project level ids keep s).0
      out_of_rounds
      (gates-ends rt rounds project.services ids (rt.now s.world + health_timeout) clock
        (requirements level keep [] project.services) s (omega (arith, enough)))

-- A level is left only if each of its services that has a container, and that a kept service requires
-- strictly to be healthy or to have completed, was seen to meet such a condition, after the level was
-- started. The condition is one that some kept service strictly asks for.
pub gate_level_lem :
    {S : Type 0} (rt : Runtime S) (rounds health_timeout : ℕ) (project : Project) (level : Level)
    (ids : Map Text) (keep : List Text) (s : State S)
    → (gate_level rt rounds health_timeout project level ids keep s).0 ≡ none
    → (name condition : Text) → contains level name ≡ true
    → is_gated condition ≡ true
    → text_at name ids ≢ []
    → IsNeeded keep name condition project.services
    → (met : Text) × (is_gated met ≡ true)
      × IsNeeded keep name met project.services
      × WasMet rt s.world (text_at name ids) met (declared_by (lookup name project.services))
unfolding gate_level
gate_level_lem rt rounds health_timeout project level ids keep s h name condition on_level gated
      started needed =
    let services = project.services in
    let required = requirements level keep [] services in
    let (req, found, strict) =
      requirements-strictly level keep [] services name condition on_level gated needed in
    let (gated', needed') = requirements-IsNeeded level keep services name req found strict in
    (
      req.condition,
      gated',
      needed',
      gates-AreMet rt rounds services ids (rt.now s.world + health_timeout) required s h name req
          found strict started,
    )
