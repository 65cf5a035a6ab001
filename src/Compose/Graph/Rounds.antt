-- ===== src/Compose/Graph/Rounds.antt =====
-- A proof rule for the main loop of `TopoSort`, which never runs out of fuel.
use devcontainer.Base.{
  ℕ, zero, suc, ◌≤◌, ◌<◌, false, not, List, [], ◌∷◌, ◌++◌, ◌≡◌, inl, inr, Text, contains-filter,
  filter_ext_of_contains, filter, filter-append-perm, length-filter-add, length, sort, is_empty,
  List-cases, arith,
}
use mathlib.Core.List.{Perm}
use devcontainer.Compose.Graph.{
  Deps, Level, Sorted, levels_of, cycle_result, find_cycle, satisfied, ready, pending_after,
  sort_levels,
}

pending_after-ready :
    (deps : Deps) (remaining : List Text)
    → pending_after (ready deps remaining) remaining
      ≡ filter (λ n. not (satisfied deps remaining n)) remaining
unfolding pending_after ready
pending_after-ready deps remaining =
    filter_ext_of_contains _ _ remaining
      (λ k m. ground (arith, contains-filter (satisfied deps remaining) remaining k, m))

-- A round only moves services from `remaining` to the levels.
pub round-perm :
    (deps : Deps) (remaining : List Text)
    → Perm (ready deps remaining ++ pending_after (ready deps remaining) remaining) remaining
unfolding ready
round-perm deps remaining =
    rw (pending_after-ready deps remaining)
      (filter-append-perm (satisfied deps remaining) remaining)

length-pending_after-lt :
    (deps : Deps) (remaining : List Text)
    → is_empty (ready deps remaining) ≡ false
    → length (pending_after (ready deps remaining) remaining) < length remaining
unfolding ready
length-pending_after-lt deps remaining h =
    rw (pending_after-ready deps remaining)
      (ground (arith, length-filter-add (satisfied deps remaining) remaining))

-- What to show of an invariant `P levels remaining` and a postcondition `Q`.
pub record Rule (deps : Deps) (P : List Level → List Text → Type 0) (Q : Sorted → Type 0)
    : Type 0 where
  pub finish : (levels : List Level) → P levels [] → Q (levels_of levels)
  pub stuck :
      (levels : List Level) (n : Text) (ns : List Text)
      → P levels (n ∷ ns)
      → ready deps (n ∷ ns) ≡ []
      → Q (cycle_result (find_cycle deps (n ∷ ns)))
  pub round :
      (levels : List Level) (remaining : List Text)
      → P levels remaining
      → P
          (levels ++ sort (ready deps remaining) ∷ [])
          (pending_after (ready deps remaining) remaining)

module _ {deps : Deps} {P : List Level → List Text → Type 0} {Q : Sorted → Type 0}
    (rule : Rule deps P Q) where
  open rule use {finish, stuck, round}

  pub sort_levels_ind :
      (fuel : ℕ) (levels : List Level) (remaining : List Text)
      → length remaining ≤ fuel
      → P levels remaining
      → Q (sort_levels fuel deps levels remaining)
  unfolding sort_levels
  sort_levels_ind fuel levels [] h p = finish levels p
  sort_levels_ind zero levels (n ∷ ns) h p = absurd (omega arith)
  sort_levels_ind (suc fuel) levels (n ∷ ns) h p = elim (List-cases (ready deps (n ∷ ns))) [
    | inl none_ready ↦ rw none_ready (stuck levels n ns p none_ready)
    | inr (x, xs, e) ↦
        let some_ready : is_empty (ready deps (n ∷ ns)) ≡ false = rw e in
        rw some_ready (
          sort_levels_ind fuel _ _ (omega (arith, length-pending_after-lt deps (n ∷ ns) some_ready))
            (round levels (n ∷ ns) p))
  ]
