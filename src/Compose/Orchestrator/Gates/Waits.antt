-- ===== src/Compose/Orchestrator/Gates/Waits.antt =====
-- The wait for one container: how it ends, and what its success means.
use devcontainer.Base.{
  lt→ltb, subst, ℕ, zero, suc, ◌+◌, ◌≤◌, ◌<◌, ltb, Bool, true, false, Option, none, some, Text,
  ◌==◌, eq_of_==, ◌≡◌, ◌≢◌, refl, inl, inr, sym, ap, ◌∙◌, arith, if_ind, Bool-cases,
}
use devcontainer.Compose.Project.{is_zero}
use devcontainer.Compose.Runtime.{
  ContainerDetails, is_running, is_exited, HealthStatus, unreported, starting, healthy, unhealthy,
  Runtime, State,
}
use devcontainer.Compose.Orchestrator.{ask}
use devcontainer.Compose.Orchestrator.Gates.{
  Waited, satisfied, out_of_rounds, Look, over, goes_on, look, look_health, look_exit, expiry,
  after_look, wait_for, service_healthy, service_completed,
}

-- The container meets the condition, if the service declares a healthcheck or not.
pub data Meets (declares : Bool) (d : ContainerDetails) : (condition : Text) → Type 0 where
  is_healthy : d.health ≡ healthy → Meets declares d service_healthy
  runs_unchecked :
      d.health ≡ unreported
      → declares ≡ false
      → is_running d.state ≡ true
      → Meets declares d service_healthy
  has_completed :
      is_exited d.state ≡ true → is_zero d.exit_code ≡ true → Meets declares d service_completed

in_time : (deadline now : ℕ) → ltb deadline now ≡ false → ¬ (deadline < now)
in_time deadline now h late = cc (h, lt→ltb deadline now late)

look_health-Meets :
    (d : ContainerDetails) (declares was : Bool) (health : HealthStatus)
    → d.health ≡ health
    → look_health health d.state declares was ≡ over satisfied
    → Meets declares d service_healthy
unfolding look_health
look_health-Meets d declares was healthy e h = is_healthy e
look_health-Meets d declares was unhealthy e h = absurd (cc h)
look_health-Meets d declares was starting e h = absurd (cc h)
look_health-Meets d true was unreported e h = absurd (cc h)
look_health-Meets d false was unreported e h = elim (Bool-cases (is_running d.state)) [
  | inl runs ↦ runs_unchecked e refl runs
  | inr stopped ↦ absurd (cc (rw stopped at h))
]

look_exit-Meets :
    (d : ContainerDetails) (declares was : Bool)
    → look_exit d.state d.exit_code was ≡ over satisfied
    → Meets declares d service_completed
unfolding look_exit
look_exit-Meets d declares was h = elim (Bool-cases (is_exited d.state)) [
  | inl gone ↦ elim (Bool-cases (is_zero d.exit_code)) [
    | inl good ↦ has_completed gone good
    | inr bad ↦ absurd (cc (rw (gone, bad) at h))
  ]
  | inr there ↦ absurd (cc (rw there at h))
]

look-Meets :
    (condition : Text) (declares was : Bool) (found : Option ContainerDetails)
    → look condition declares was found ≡ over satisfied
    → (d : ContainerDetails) × (found ≡ some d) × Meets declares d condition
unfolding look
look-Meets condition declares was none h = absurd (cc h)
look-Meets condition declares was (some d) h = elim (Bool-cases (condition == service_healthy)) [
  | inl health ↦ (
    d,
    refl,
    subst (Meets declares d) (sym (eq_of_== condition service_healthy health))
        (look_health-Meets d declares was d.health refl (rw health at h)),
  )
  | inr other ↦ elim (Bool-cases (condition == service_completed)) [
    | inl exit ↦ (
      d,
      refl,
      subst (Meets declares d) (sym (eq_of_== condition service_completed exit))
          (look_exit-Meets d declares was (rw (other, exit) at h)),
    )
    | inr neither ↦ absurd (cc (rw (other, neither) at h))
  ]
]

module _ {S : Type 0} (rt : Runtime S) where
  -- The runtime is asked at most once for each round; the time goes on with each sleep.
  pub record IsClock : Type 0 where
    pub looking_takes_time : (id : Text) (w : S) → rt.now w ≤ rt.now (rt.inspect_container id w).1
    pub sleep_goes_on : (w : S) → rt.now w < rt.now (rt.sleep w)

  -- The world at a later moment, when nothing but waiting was done.
  pub data Later (w : S) : S → Type 0 where
    at_once : Later w w
    looked : {v : S} → Later w v → (id : Text) → Later w (rt.inspect_container id v).1
    slept : {v : S} → Later w v → Later w (rt.sleep v)

  pub Later-trans : {u v w : S} → Later u v → Later v w → Later u w
  Later-trans p at_once = p
  Later-trans p (looked q id) = looked (Later-trans p q) id
  Later-trans p (slept q) = slept (Later-trans p q)

  -- At some moment from this one on, the container was seen to meet the condition.
  abbrev pub WasMet : (start : S) (id condition : Text) → (declares : Bool) → Type 0
  WasMet start id condition declares =
      (w : S) × (d : ContainerDetails) × Later start w
      × ((rt.inspect_container id w).0 ≡ some d)
      × Meets declares d condition

  pub WasMet-Later :
      {start start' : S} {id condition : Text} {declares : Bool}
      → Later start start'
      → WasMet start' id condition declares
      → WasMet start id condition declares
  WasMet-Later p (w, d, q, seen, meets) = (w, d, Later-trans p q, seen, meets)

  pub now-Later : IsClock → {w v : S} → Later w v → rt.now w ≤ rt.now v
  now-Later clock at_once = omega arith
  now-Later clock (looked {v} p id) =
      omega (arith, now-Later clock p, clock.looking_takes_time id v)
  now-Later clock (slept {v} p) = omega (arith, now-Later clock p, clock.sleep_goes_on v)

  sleeping : State S → State S
  sleeping s = record s { world = rt.sleep s.world }

  -- Either a round ends the wait, or it is not late and the wait goes on behind a sleep.
  after_look_ind :
      (P : Waited × State S → Type 0) (seen : Look) (is_late : Bool) (s : State S)
      (k : Bool → Waited × State S)
      → ((reason : Waited) → seen ≡ over reason → P (reason, s))
      → ((u : Bool) → seen ≡ goes_on u → is_late ≡ true → P (expiry u, s))
      → ((u : Bool) → seen ≡ goes_on u → is_late ≡ false → P (k u))
      → P (after_look seen is_late s k)
  after_look_ind P (over reason) is_late s k ends late goes = ends reason refl
  after_look_ind P (goes_on u) true s k ends late goes = late u refl refl
  after_look_ind P (goes_on u) false s k ends late goes = goes u refl refl

  look-never-out :
      (condition : Text) (declares was : Bool) (found : Option ContainerDetails)
      → look condition declares was found ≢ over out_of_rounds
  unfolding look look_health look_exit
  look-never-out condition declares was found h = ground arith

  expiry-never-satisfied : (u : Bool) → expiry u ≢ satisfied
  expiry-never-satisfied true h = cc h
  expiry-never-satisfied false h = cc h

  expiry-never-out : (u : Bool) → expiry u ≢ out_of_rounds
  expiry-never-out true h = cc h
  expiry-never-out false h = cc h

  -- The wait ends, whatever the container does: as many rounds as there are units of time up to the
  -- deadline are enough, and one more.
  pub wait_for-ends :
      IsClock
      → (rounds : ℕ) (id condition : Text) (declares : Bool) (deadline : ℕ) (was : Bool)
        (s : State S)
      → deadline < rounds + rt.now s.world
      → (wait_for rt (suc rounds) id condition declares deadline was s).0 ≢ out_of_rounds
  unfolding wait_for sleeping
  wait_for-ends clock zero id condition declares deadline was s enough =
      let (found, s') = ask (rt.inspect_container id) s in
      let looked = clock.looking_takes_time id s.world in
      if_ind {A = Waited × State S} (λ x. x.0 ≢ out_of_rounds) (rt.cancelled s.world) (λ _ h. cc h)
        (λ _.
          after_look_ind (λ x. x.0 ≢ out_of_rounds) (look condition declares was found)
            (ltb deadline (rt.now s'.world)) s'
            (λ u. wait_for rt zero id condition declares deadline u (sleeping s'))
            (λ reason seen h. look-never-out condition declares was found (seen ∙ ap over h))
            (λ u _ _. expiry-never-out u)
            (λ u _ early.
              absurd (in_time deadline (rt.now s'.world) early (omega (arith, enough, looked)))))
  wait_for-ends clock (suc rounds) id condition declares deadline was s enough =
      let (found, s') = ask (rt.inspect_container id) s in
      let looked = clock.looking_takes_time id s.world in
      let slept = clock.sleep_goes_on s'.world in
      if_ind {A = Waited × State S} (λ x. x.0 ≢ out_of_rounds) (rt.cancelled s.world) (λ _ h. cc h)
        (λ _.
          after_look_ind (λ x. x.0 ≢ out_of_rounds) (look condition declares was found)
            (ltb deadline (rt.now s'.world)) s'
            (λ u. wait_for rt (suc rounds) id condition declares deadline u (sleeping s'))
            (λ reason seen h. look-never-out condition declares was found (seen ∙ ap over h))
            (λ u _ _. expiry-never-out u)
            (λ u _ _.
              wait_for-ends clock rounds id condition declares deadline u (sleeping s')
                (omega arith)))

  pub wait_for-Later :
      (rounds : ℕ) (id condition : Text) (declares : Bool) (deadline : ℕ) (was : Bool) (s : State S)
      → Later s.world (wait_for rt rounds id condition declares deadline was s).1.world
  unfolding wait_for sleeping
  wait_for-Later zero id condition declares deadline was s = at_once
  wait_for-Later (suc rounds) id condition declares deadline was s =
      let (found, s') = ask (rt.inspect_container id) s in
      let seen : Later s.world s'.world = looked at_once id in
      if_ind {A = Waited × State S} (λ x. Later s.world x.1.world) (rt.cancelled s.world)
        (λ _. at_once)
        (λ _.
          after_look_ind (λ x. Later s.world x.1.world) (look condition declares was found)
            (ltb deadline (rt.now s'.world)) s'
            (λ u. wait_for rt rounds id condition declares deadline u (sleeping s')) (λ _ _. seen)
            (λ _ _ _. seen)
            (λ u _ _.
              Later-trans (slept seen)
                (wait_for-Later rounds id condition declares deadline u (sleeping s'))))

  -- A wait that succeeds has seen the container meet the condition, last of all.
  pub wait_for-Meets :
      (rounds : ℕ) (id condition : Text) (declares : Bool) (deadline : ℕ) (was : Bool) (s : State S)
      → (wait_for rt rounds id condition declares deadline was s).0 ≡ satisfied
      → WasMet s.world id condition declares
  unfolding wait_for sleeping
  wait_for-Meets zero id condition declares deadline was s = λ h. absurd (cc h)
  wait_for-Meets (suc rounds) id condition declares deadline was s =
      let (found, s') = ask (rt.inspect_container id) s in
      if_ind {A = Waited × State S} (λ x. x.0 ≡ satisfied → WasMet s.world id condition declares)
        (rt.cancelled s.world) (λ _ h. absurd (cc h))
        (λ _.
          after_look_ind (λ x. x.0 ≡ satisfied → WasMet s.world id condition declares)
            (look condition declares was found) (ltb deadline (rt.now s'.world)) s'
            (λ u. wait_for rt rounds id condition declares deadline u (sleeping s'))
            (λ reason seen h.
              let (d, here, meets) = look-Meets condition declares was found (seen ∙ ap over h) in
              (s.world, d, at_once, here, meets))
            (λ u _ _ h. absurd (expiry-never-satisfied u h))
            (λ u _ _ h.
              WasMet-Later (slept (looked at_once id))
                (wait_for-Meets rounds id condition declares deadline u (sleeping s') h)))
