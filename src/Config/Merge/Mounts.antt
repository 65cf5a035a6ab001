-- ===== src/Config/Merge/Mounts.antt =====
-- The mounts of the merged configuration: one for each target, the last one given.
use devcontainer.Base.{
  false, List, [], ◌∷◌, ◌++◌, Option, none, some, Text, ◌==◌, eq_iff, eq_of_==, if◌then◌else◌, ◌≡◌,
  ◌≢◌, refl, arith, or_else, ap, ◌∙◌, Bool-cases, inl, inr, contains, filter, is_some,
}
use devcontainer.Config.Types.{ResolvedConfig, Mount}
use devcontainer.Config.Substitute.{SubstitutionContext}
use devcontainer.Config.Layers.{substitute_layers}
use devcontainer.Config.Merge.{
  Layers, layer_mounts, dedup_walk, dedup_mounts_by_target, merge_layers, merge_metadata,
}

-- The last mount of a list that has the target, and how many have it.
abbrev pub last_mount : Text → List Mount → Option Mount
last_mount t [] = none
last_mount t (m ∷ ms) = or_else (last_mount t ms) (if m.target == t then some m else none)

abbrev pub mounts_at : Text → List Mount → List Mount
mounts_at t ms = filter (λ m. m.target == t) ms

abbrev pub to_list : Option Mount → List Mount
to_list none = []
to_list (some m) = m ∷ []

-- What is seen is the targets that the suffix has.
seen_lem :
    (ms : List Mount) (t : Text)
    → (t == []) ≡ false
    → contains (dedup_walk ms).1 t ≡ is_some (last_mount t ms)
unfolding dedup_walk contains
seen_lem [] t ne = refl
seen_lem (m ∷ ms) t ne = elim (Bool-cases (m.target == t)) [
  | inl same ↦
      let e = eq_of_== m.target t same in
      ground
        (arith, same, ap (λ x. x == []) e ∙ ne, ap (contains (dedup_walk ms).1) e, seen_lem ms t ne)
  | inr other ↦ ground (arith, other, seen_lem ms t ne)
]

-- One mount of each target is kept: the last.
dedup_walk-last :
    (ms : List Mount) (t : Text)
    → (t == []) ≡ false
    → mounts_at t (dedup_walk ms).0 ≡ to_list (last_mount t ms)
unfolding dedup_walk filter contains
dedup_walk-last [] t ne = refl
dedup_walk-last (m ∷ ms) t ne = elim (Bool-cases (m.target == t)) [
  | inl same ↦
      let e = eq_of_== m.target t same in
      ground (
        arith,
        same,
        ap (λ x. x == []) e ∙ ne,
        ap (contains (dedup_walk ms).1) e,
        seen_lem ms t ne,
        dedup_walk-last ms t ne,
      )
  | inr other ↦ ground (arith, other, dedup_walk-last ms t ne)
]

-- A mount with no target is kept as it is.
dedup_walk_no_target : (ms : List Mount) → mounts_at [] (dedup_walk ms).0 ≡ mounts_at [] ms
unfolding dedup_walk filter
dedup_walk_no_target [] = refl
dedup_walk_no_target (m ∷ ms) = ground (arith, dedup_walk_no_target ms)

module _ (cfg : ResolvedConfig) (ctx : SubstitutionContext) where
  -- When there is at least one layer, the merged configuration has for each non-empty target exactly
  -- the last mount at it, of the layers' mounts followed by the user's, and no mount at a target
  -- that none of them has; the mounts without a target are all kept, in order.
  pub merge_metadata-mounts :
      (layers : Layers)
      → layers ≢ []
      → let out = (merge_metadata cfg ctx layers).mounts in
        let all = layer_mounts (substitute_layers layers ctx) ++ cfg.mounts in
        ((t : Text) → t ≢ [] → mounts_at t out ≡ to_list (last_mount t all))
        × (mounts_at [] out ≡ mounts_at [] all)
  unfolding merge_metadata merge_layers dedup_mounts_by_target
  merge_metadata-mounts [] h = absurd (h refl)
  merge_metadata-mounts (l ∷ layers) h =
      let all = layer_mounts (substitute_layers (l ∷ layers) ctx) ++ cfg.mounts in
      (λ t ne. dedup_walk-last all t (ground (arith, eq_iff t [], ne)), dedup_walk_no_target all)
