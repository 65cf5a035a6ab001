-- ===== src/Engine/Phases/Markers.antt =====
-- When a phase runs again, and what a failure leaves behind.
use devcontainer.Base.{
  ℕ, Bool, true, false, not, ◌&&◌, List, [], ◌∷◌, Option, none, some, is_empty, if◌then◌else◌, ◌≡◌,
  ◌≢◌, refl, arith, ap, sym, ◌∙◌, nat_beq, if_ind, subst,
}
use devcontainer.Config.Types.{ResolvedConfig, LifecycleCommand}
use devcontainer.Engine.Lifecycle.{
  Phase, initialize, on_create, update_content, post_create, post_start, post_attach, is_initialize,
  is_post_attach, same_phase, ContainerDetails, Marker, MarkerFile, absent, corrupt, stored, Error,
  read_marker_error, write_marker_error, skipped_event, Backend, State, marker_version,
  key_timestamp_for, decode_marker, should_run, key_differs,
}
use devcontainer.Engine.Phases.{
  run_initialize_hook, run_hook, until_error, and_then, emit, fresh_marker, write_marker,
  run_and_mark, run_marked, run_phase,
}

same_phase_refl : (p : Phase) → same_phase p p ≡ true
same_phase_refl initialize = refl
same_phase_refl on_create = refl
same_phase_refl update_content = refl
same_phase_refl post_create = refl
same_phase_refl post_start = refl
same_phase_refl post_attach = refl

pub same_phase_key :
    (p q : Phase) (container : ContainerDetails)
    → same_phase p q ≡ true
    → key_timestamp_for q container ≡ key_timestamp_for p container
unfolding key_timestamp_for
same_phase_key p q container h = grind arith

if_not {ℓ} : {A : Type ℓ} (c : Bool) (x y : A) → (if not c then x else y) ≡ (if c then y else x)
if_not true x y = refl
if_not false x y = refl

-- The phase keeps a marker: it runs in the container, and not on every attach.
abbrev pub is_marked : Phase → Bool
is_marked p = not (is_initialize p) && not (is_post_attach p)

pub and_then_inv {ℓ μ} :
    {S : Type ℓ} (P : S → Type μ) (r : Option Error × S) (k : S → Option Error × S)
    → P r.1
    → ((s : S) → P s → P (k s).1)
    → P (and_then r k).1
and_then_inv P (some e, s) k p keep = p
and_then_inv P (none, s) k p keep = keep s p

-- What a second step that succeeds has done, both have done where both succeed.
pub and_then_done {ℓ μ} :
    {S : Type ℓ} (P : Option Error × S → Type μ) (r : Option Error × S) (k : S → Option Error × S)
    → ((s : S) → (k s).0 ≡ none → P (k s))
    → (and_then r k).0 ≡ none
    → P (and_then r k)
and_then_done P (some e, s) k done h = absurd (cc h)
and_then_done P (none, s) k done h = done s h

-- An invariant that each step of a loop keeps holds at its end.
pub until_error_inv {ℓ κ μ} :
    {S : Type ℓ} {A : Type κ} (P : S → Type μ) (step : A → S → Option Error × S)
    → ((x : A) (s : S) → P s → P (step x s).1)
    → (xs : List A) (s : S) → P s
    → P (until_error step xs s).1
unfolding until_error
until_error_inv P step keep [] s p = p
until_error_inv P step keep (x ∷ xs) s p =
    and_then_inv P (step x s) (until_error step xs) (keep x s p) (until_error_inv P step keep xs)

module _ {S : Type 0} (b : Backend S) (cfg : ResolvedConfig) (container : ContainerDetails) where
  run_hook-marker_of :
      (phase : Phase) (c : LifecycleCommand) (s : State S)
      → (run_hook b cfg container phase c s).1.marker_of ≡ s.marker_of
  unfolding run_hook
  run_hook-marker_of phase c s = ground arith

  run_initialize_hook-marker_of :
      (c : LifecycleCommand) (s : State S)
      → (run_initialize_hook b cfg container c s).1.marker_of ≡ s.marker_of
  unfolding run_initialize_hook
  run_initialize_hook-marker_of c s = ground arith

  hooks-marker_of :
      (phase : Phase) (cmds : List LifecycleCommand) (s : State S)
      → (until_error (run_hook b cfg container phase) cmds s).1.marker_of ≡ s.marker_of
  hooks-marker_of phase cmds s =
      until_error_inv (λ t. t.marker_of ≡ s.marker_of) (run_hook b cfg container phase)
        (λ c t e. run_hook-marker_of phase c t ∙ e) cmds s refl

  pub initialize-marker_of :
      (cmds : List LifecycleCommand) (s : State S)
      → (until_error (run_initialize_hook b cfg container) cmds s).1.marker_of ≡ s.marker_of
  initialize-marker_of cmds s =
      until_error_inv (λ t. t.marker_of ≡ s.marker_of) (run_initialize_hook b cfg container)
        (λ c t e. run_initialize_hook-marker_of c t ∙ e) cmds s refl

  pub run_and_mark_failed :
      (phase : Phase) (cmds : List LifecycleCommand) (s : State S) {e : Error}
      → (run_and_mark b cfg container phase cmds s).0 ≡ some e
      → e ≢ write_marker_error phase
      → (run_and_mark b cfg container phase cmds s).1.marker_of ≡ s.marker_of
  unfolding run_and_mark write_marker
  run_and_mark_failed phase cmds s h ne = ground (arith, h, ne, hooks-marker_of phase cmds s)

  -- The ways in which a phase goes.
  pub run_phase_ind :
      (P : Option Error × State S → Type 0) (phase : Phase) (cmds : List LifecycleCommand)
      (s : State S)
      → (is_empty cmds ≡ true → P (none, s))
      → (is_initialize phase ≡ true → P (until_error (run_initialize_hook b cfg container) cmds s))
      → P (run_and_mark b cfg container phase cmds s)
      → P (some (read_marker_error phase), s)
      → (should_run phase (decode_marker (s.marker_of phase)) container ≡ false
          → P (none, emit (skipped_event phase) s))
      → P (run_phase b cfg container phase cmds s)
  unfolding run_phase run_marked
  run_phase_ind P phase cmds s empty init run unread skip = if_ind P (is_empty cmds) empty (λ _.
      if_ind P (is_initialize phase) init (λ _.
        if_ind P (is_post_attach phase) (λ _. run)
          (λ _.
            if_ind P (b.read_fails s.world) (λ _. unread)
              (λ _.
                if_ind P (should_run phase (decode_marker (s.marker_of phase)) container) (λ _. run)
                  skip))))

  -- A phase that fails, other than in writing its marker, leaves every marker as it was.
  pub run_phase_failed :
      (phase : Phase) (cmds : List LifecycleCommand) (s : State S) {e : Error}
      → (run_phase b cfg container phase cmds s).0 ≡ some e
      → e ≢ write_marker_error phase
      → (run_phase b cfg container phase cmds s).1.marker_of ≡ s.marker_of
  run_phase_failed phase cmds s {e} =
      run_phase_ind (λ r. r.0 ≡ some e → e ≢ write_marker_error phase → r.1.marker_of ≡ s.marker_of)
        phase cmds s (λ _ h _. refl) (λ _ h _. initialize-marker_of cmds s)
        (run_and_mark_failed phase cmds s) (λ h _. refl) (λ _ h _. refl)

-- The file holds a marker of this version for the given time.
pub record IsMarkedFor (key : ℕ) (file : MarkerFile) : Type 0 where
  pub marker : Marker
  pub holds : file ≡ stored marker
  pub current : marker.version ≡ marker_version
  pub keyed : marker.key_timestamp ≡ key

module _ {S : Type 0} (b : Backend S) (cfg : ResolvedConfig) (container : ContainerDetails) where
  abbrev pub IsCurrent : Phase → State S → Type 0
  IsCurrent p s = IsMarkedFor (key_timestamp_for p container) (s.marker_of p)

  write_marker_done :
      (p : Phase) (start : ℕ) (s : State S)
      → (write_marker b cfg container p start s).0 ≡ none
      → IsCurrent p (write_marker b cfg container p start s).1
  unfolding write_marker
  write_marker_done p start s =
      if_ind {A = Option Error × State S} (λ r. r.0 ≡ none → IsCurrent p r.1)
        (b.write_fails s.world) (λ _ h. absurd (cc h))
        (λ _ _. record {
          marker = fresh_marker b cfg container p start s.world;
          holds = rw same_phase_refl;
          current = refl;
          keyed = refl;
        })

  pub run_and_mark_done :
      (p : Phase) (cmds : List LifecycleCommand) (s : State S)
      → is_post_attach p ≡ false
      → (run_and_mark b cfg container p cmds s).0 ≡ none
      → IsCurrent p (run_and_mark b cfg container p cmds s).1
  unfolding run_and_mark
  run_and_mark_done p cmds s h =
      and_then_done (λ r. IsCurrent p r.1) (until_error (run_hook b cfg container p) cmds s)
        (λ s'.
          if is_post_attach p
          then (none, s')
          else write_marker b cfg container p (b.now s.world) s')
        (λ s'.
          if_ind {A = Option Error × State S} (λ r. r.0 ≡ none → IsCurrent p r.1) (is_post_attach p)
            (λ t _. absurd (cc (t, h))) (λ _. write_marker_done p (b.now s.world) s'))

  pub run_and_mark-other :
      (p q : Phase) (cmds : List LifecycleCommand) (s : State S)
      → same_phase p q ≡ false
      → (run_and_mark b cfg container q cmds s).1.marker_of p ≡ s.marker_of p
  unfolding run_and_mark write_marker
  run_and_mark-other p q cmds s h =
      and_then_inv (λ t. t.marker_of p ≡ s.marker_of p)
        (until_error (run_hook b cfg container q) cmds s)
        (λ s'.
          if is_post_attach q
          then (none, s')
          else write_marker b cfg container q (b.now s.world) s')
        (ap (λ f. f p) (hooks-marker_of b cfg container q cmds s))
        (λ t same.
          if_ind {A = Option Error × State S} (λ r. r.1.marker_of p ≡ s.marker_of p)
            (is_post_attach q) (λ _. same)
            (λ _.
              if_ind {A = Option Error × State S} (λ r. r.1.marker_of p ≡ s.marker_of p)
                (b.write_fails t.world) (λ _. rw (h, same)) (λ _. rw (h, same))))

  should_run_current :
      (p : Phase) (file : MarkerFile)
      → is_post_attach p ≡ false
      → should_run p (decode_marker file) container ≡ false
      → IsMarkedFor (key_timestamp_for p container) file
  unfolding should_run decode_marker key_differs
  should_run_current p absent q h = absurd (ground (arith, q, h))
  should_run_current p corrupt q h = absurd (ground (arith, q, h))
  should_run_current p (stored m) q h = record {
    marker = m;
    holds = refl;
    current = ground (arith, q, h);
    keyed = ground (arith, q, h);
  }

  should_run_marked :
      (p : Phase) (key : ℕ) (file : MarkerFile)
      → is_post_attach p ≡ false
      → IsMarkedFor key file
      → should_run p (decode_marker file) container
        ≡ not (nat_beq key (key_timestamp_for p container))
  unfolding should_run decode_marker key_differs
  should_run_marked p key file q marked = rw (marked.holds, marked.current, marked.keyed, q)

  pub run_phase_done :
      (p : Phase) (cmds : List LifecycleCommand) (s : State S)
      → is_marked p ≡ true
      → is_empty cmds ≡ false
      → (run_phase b cfg container p cmds s).0 ≡ none
      → IsCurrent p (run_phase b cfg container p cmds s).1
  run_phase_done p cmds s marked full =
      run_phase_ind b cfg container (λ r. r.0 ≡ none → IsCurrent p r.1) p cmds s
        (λ t _. absurd (cc (t, full))) (λ t _. absurd (ground (arith, t, marked)))
        (run_and_mark_done p cmds s (ground (arith, marked))) (λ h. absurd (cc h))
        (λ skip _. should_run_current p (s.marker_of p) (ground (arith, marked)) skip)

  pub run_phase_marked :
      (p : Phase) (cmds : List LifecycleCommand) (s : State S) (key : ℕ)
      → is_marked p ≡ true
      → is_empty cmds ≡ false
      → IsMarkedFor key (s.marker_of p)
      → b.read_fails s.world ≡ false
      → run_phase b cfg container p cmds s ≡ (
          if nat_beq key (key_timestamp_for p container)
          then (none, emit (skipped_event p) s)
          else run_and_mark b cfg container p cmds s)
  unfolding run_phase run_marked
  run_phase_marked p cmds s key marked full m reads =
      let run = should_run_marked p key (s.marker_of p) (ground (arith, marked)) m in
      let initial : is_initialize p ≡ false = ground (arith, marked) in
      let attach : is_post_attach p ≡ false = ground (arith, marked) in
      rw (full, initial, attach, reads, run, if_not)

-- A marked phase that has succeeded is skipped in the container it ran in, and runs again in another.
-- Neither reading the marker back may fail, nor may something else have written over it in between.
pub run_phase_twice :
    {S : Type 0} (b : Backend S) (cfg : ResolvedConfig) (old new : ContainerDetails) (p : Phase)
    (cmds : List LifecycleCommand) (s later : State S)
    → is_marked p ≡ true
    → is_empty cmds ≡ false
    → (run_phase b cfg old p cmds s).0 ≡ none
    → later.marker_of p ≡ (run_phase b cfg old p cmds s).1.marker_of p
    → b.read_fails later.world ≡ false
    → run_phase b cfg new p cmds later ≡ (
        if nat_beq (key_timestamp_for p old) (key_timestamp_for p new)
        then (none, emit (skipped_event p) later)
        else run_and_mark b cfg new p cmds later)
run_phase_twice b cfg old new p cmds s later marked full done kept reads =
    run_phase_marked b cfg new p cmds later (key_timestamp_for p old) marked full
      (subst (IsMarkedFor (key_timestamp_for p old)) (sym kept)
        (run_phase_done b cfg old p cmds s marked full done))
      reads
