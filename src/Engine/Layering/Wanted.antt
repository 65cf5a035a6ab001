-- ===== src/Engine/Layering/Wanted.antt =====
-- What dependencies of up.go asks for: what is missing, once, and nothing outside the project.
use devcontainer.Base.{
  Bool, true, not, ◌&&◌, ◌||◌, List, [], ◌∷◌, ◌++◌, Text, text, ◌==◌, Map, any, all, ◌≡◌,
}
use devcontainer.Config.Types.{Json, ResolvedFeature}
use devcontainer.Feature.Order.{has_prefix}
use devcontainer.Feature.Graph.{JsonOps, same_options}
use devcontainer.Engine.Lock.{is_local}
use devcontainer.Engine.Layering.Request.{Dependencies, wanted, forbidden}

module _ (ops : JsonOps) where
  -- `g` is what the reference and the options ask for.
  abbrev pub answers : ResolvedFeature → Text × Map Json → Bool
  answers g e = (g.ref == e.0) && same_options ops g e.1

  pub is_held : List ResolvedFeature → Text × Map Json → Bool
  is_held fs e = any (λ g. answers g e) fs

  -- A feature that was not fetched is what was asked for by its own options too.
  pub is_met : List ResolvedFeature → Text × Map Json → Bool
  is_met fs e =
      any (λ g. (g.ref == e.0) && (same_options ops g e.1 || ops.deep_equal g.options e.1)) fs

  -- No feature is what a later one asks for.
  pub no_repeats : List ResolvedFeature → Bool
  no_repeats [] = true
  no_repeats (g ∷ gs) =
      let later = no_repeats gs in all (λ h. not (answers g (h.ref, h.options))) gs && later

  module _ (lies_inside : Text → Bool) (features : List ResolvedFeature) (f : ResolvedFeature) where
    -- A local path comes from a local feature, is relative and lies inside the project's folder.
    abbrev pub is_safe : ResolvedFeature → Bool
    is_safe d =
        not (is_local d.source_kind)
        || (is_local f.source_kind && (not (has_prefix (text "/") d.ref) && lies_inside d.ref))

    abbrev pub is_new : ResolvedFeature → Bool
    is_new d = not (is_held features (d.ref, d.options))

    -- The dependencies gathered on top of `out` are new, differ, and are safe, and hold what the
    -- entries ask for.
    IsSound : List ResolvedFeature → Map (Map Json) → Dependencies → Type 0
    IsSound out entries (wanted deps) =
        (all is_new deps ≡ true)
        × (no_repeats deps ≡ true)
        × (all is_safe deps ≡ true)
        × (all (λ e. is_met (features ++ deps) e) entries ≡ true)
        × ((e : Text × Map Json) → is_met out e ≡ true → is_met deps e ≡ true)
    IsSound out entries (forbidden e) = Unit
