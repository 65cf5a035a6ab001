-- ===== src/Engine/Phases/Rerun.antt =====
-- Running all phases of a workspace, and running them again.
use devcontainer.Base.{
  Bool, true, false, not, ◌&&◌, List, [], ◌∷◌, Option, none, some, is_empty, any, if◌then◌else◌,
  ◌≡◌, refl, arith, ap, sym, ◌∙◌, Bool-cases, inl, inr, nat_beq, if_ind, subst,
}
use devcontainer.Config.Types.{ResolvedConfig, LifecycleCommand}
use devcontainer.Engine.Lifecycle.{
  Phase, ordered_phases, is_initialize, is_post_attach, same_phase, ContainerDetails, Error,
  Backend, State, skipped_event, key_timestamp_for, lifecycle_commands_for,
}
use devcontainer.Engine.Phases.{
  run_phase, run_and_mark, run_configured, run_all_lifecycle, until_error, and_then, emit,
}
use devcontainer.Engine.Phases.Markers.{
  is_marked, and_then_done, IsCurrent, IsMarkedFor, run_and_mark_done, run_and_mark-other,
  run_phase_ind, initialize-marker_of, run_phase_done, run_phase_marked,
}

same_phase_eq : (p q : Phase) → same_phase p q ≡ true → q ≡ p
same_phase_eq p q h = grind arith

and_then_first {ℓ μ} :
    {S : Type ℓ} (P : S → Type μ) (r : Option Error × S) (k : S → Option Error × S)
    → (r.0 ≡ none → P r.1)
    → ((s : S) → P s → (k s).0 ≡ none → P (k s).1)
    → (and_then r k).0 ≡ none
    → P (and_then r k).1
and_then_first P (some e, s) k done keep h = absurd (cc h)
and_then_first P (none, s) k done keep h = keep s (done refl) h

-- An invariant that each step keeps where it succeeds holds at the end of a loop that does.
until_error_kept {ℓ κ μ} :
    {S : Type ℓ} {A : Type κ} (P : S → Type μ) (step : A → S → Option Error × S)
    → ((x : A) (s : S) → P s → (step x s).0 ≡ none → P (step x s).1)
    → (xs : List A) (s : S) → P s
    → (until_error step xs s).0 ≡ none
    → P (until_error step xs s).1
unfolding until_error
until_error_kept P step keep [] s p h = p
until_error_kept P step keep (x ∷ xs) s p h =
    and_then_first P (step x s) (until_error step xs) (keep x s p) (until_error_kept P step keep xs)
      h

-- A loop that ends well has passed the step for `x`, whose effect the other steps keep.
until_error_reaches {ℓ κ μ} :
    {S : Type ℓ} {A : Type κ} (P : S → Type μ) (step : A → S → Option Error × S) (x : A)
    (test : A → Bool)
    → ((y : A) → test y ≡ true → y ≡ x)
    → ((s : S) → (step x s).0 ≡ none → P (step x s).1)
    → ((y : A) (s : S) → P s → (step y s).0 ≡ none → P (step y s).1)
    → (xs : List A) (s : S) → any test xs ≡ true
    → (until_error step xs s).0 ≡ none
    → P (until_error step xs s).1
unfolding until_error any
until_error_reaches P step x test found done keep [] s m h = absurd (cc m)
until_error_reaches P step x test found done keep (y ∷ ys) s m h =
    let rest = until_error_reaches P step x test found done keep ys in
    elim (Bool-cases (test y)) [
      | inl t ↦
          and_then_first P (step y s) (until_error step ys)
            (subst (λ z. (step z s).0 ≡ none → P (step z s).1) (sym (found y t)) (done s))
            (until_error_kept P step keep ys) h
      | inr f ↦
          and_then_done (λ r. P r.1) (step y s) (until_error step ys) (λ s'. rest s' (rw f at m)) h
    ]

module _ {S : Type 0} (b : Backend S) (cfg : ResolvedConfig) (container : ContainerDetails) where
  run_and_mark-IsCurrent :
      (p q : Phase) (cmds : List LifecycleCommand) (s : State S)
      → is_marked p ≡ true
      → IsCurrent b cfg container p s
      → (run_and_mark b cfg container q cmds s).0 ≡ none
      → IsCurrent b cfg container p (run_and_mark b cfg container q cmds s).1
  run_and_mark-IsCurrent p q cmds s marked current h = elim (Bool-cases (same_phase p q)) [
    | inr f ↦
        subst (IsMarkedFor (key_timestamp_for p container))
          (sym (run_and_mark-other b cfg container p q cmds s f)) current
    | inl t ↦
        subst (λ z. IsCurrent b cfg container z (run_and_mark b cfg container q cmds s).1)
          (same_phase_eq p q t)
          (run_and_mark_done b cfg container q cmds s
            (ap is_post_attach (same_phase_eq p q t) ∙ ground (arith, marked)) h)
  ]

  run_phase-IsCurrent :
      (p q : Phase) (cmds : List LifecycleCommand) (s : State S)
      → is_marked p ≡ true
      → IsCurrent b cfg container p s
      → (run_phase b cfg container q cmds s).0 ≡ none
      → IsCurrent b cfg container p (run_phase b cfg container q cmds s).1
  run_phase-IsCurrent p q cmds s marked current =
      run_phase_ind b cfg container (λ r. r.0 ≡ none → IsCurrent b cfg container p r.1) q cmds s
        (λ _ _. current)
        (λ _ _.
          subst (IsMarkedFor (key_timestamp_for p container))
            (sym (ap (λ f. f p) (initialize-marker_of b cfg container cmds s))) current)
        (run_and_mark-IsCurrent p q cmds s marked current) (λ _. current) (λ _ _. current)

  run_configured-IsCurrent :
      (p q : Phase) (wi : Bool) (s : State S)
      → is_marked p ≡ true
      → IsCurrent b cfg container p s
      → (run_configured b cfg container wi q s).0 ≡ none
      → IsCurrent b cfg container p (run_configured b cfg container wi q s).1
  unfolding run_configured
  run_configured-IsCurrent p q wi s marked current =
      if_ind {A = Option Error × State S} (λ r. r.0 ≡ none → IsCurrent b cfg container p r.1)
        (is_initialize q && not wi) (λ _ _. current)
        (λ _. run_phase-IsCurrent p q (lifecycle_commands_for cfg q) s marked current)

  run_configured_done :
      (p : Phase) (wi : Bool) (s : State S)
      → is_marked p ≡ true
      → is_empty (lifecycle_commands_for cfg p) ≡ false
      → (run_configured b cfg container wi p s).0 ≡ none
      → IsCurrent b cfg container p (run_configured b cfg container wi p s).1
  unfolding run_configured
  run_configured_done p wi s marked full =
      if_ind {A = Option Error × State S} (λ r. r.0 ≡ none → IsCurrent b cfg container p r.1)
        (is_initialize p && not wi) (λ t _. absurd (ground (arith, t, marked)))
        (λ _ h. run_phase_done b cfg container p (lifecycle_commands_for cfg p) s marked full h)

  ordered_phases_all : (p : Phase) → any (same_phase p) ordered_phases ≡ true
  unfolding any
  ordered_phases_all p = grind arith

  run_all_done :
      (p : Phase) (wi : Bool) (s : State S)
      → is_marked p ≡ true
      → is_empty (lifecycle_commands_for cfg p) ≡ false
      → (run_all_lifecycle b cfg container wi s).0 ≡ none
      → IsCurrent b cfg container p (run_all_lifecycle b cfg container wi s).1
  unfolding run_all_lifecycle
  run_all_done p wi s marked full =
      until_error_reaches (IsCurrent b cfg container p) (run_configured b cfg container wi) p
        (same_phase p) (same_phase_eq p) (λ t. run_configured_done p wi t marked full)
        (λ q t. run_configured-IsCurrent p q wi t marked) ordered_phases s (ordered_phases_all p)

-- After all phases of a workspace have succeeded, a phase that keeps a marker and has commands is
-- skipped where the container is the same by the phase's own time, and runs again where it is not.
-- The marker must still be what the first run has left, and reading it back may not fail.
pub run_all_lifecycle_twice :
    {S : Type 0} (b : Backend S) (cfg : ResolvedConfig) (old new : ContainerDetails)
    (with_initialize : Bool) (p : Phase) (s later : State S)
    → is_marked p ≡ true
    → is_empty (lifecycle_commands_for cfg p) ≡ false
    → (run_all_lifecycle b cfg old with_initialize s).0 ≡ none
    → later.marker_of p ≡ (run_all_lifecycle b cfg old with_initialize s).1.marker_of p
    → b.read_fails later.world ≡ false
    → run_phase b cfg new p (lifecycle_commands_for cfg p) later ≡ (
        if nat_beq (key_timestamp_for p old) (key_timestamp_for p new)
        then (none, emit (skipped_event p) later)
        else run_and_mark b cfg new p (lifecycle_commands_for cfg p) later)
run_all_lifecycle_twice b cfg old new wi p s later marked full done kept reads =
    run_phase_marked b cfg new p (lifecycle_commands_for cfg p) later (key_timestamp_for p old)
      marked full
      (subst (IsMarkedFor (key_timestamp_for p old)) (sym kept)
        (run_all_done b cfg old p wi s marked full done))
      reads
