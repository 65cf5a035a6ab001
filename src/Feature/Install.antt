-- ===== src/Feature/Install.antt =====
-- Order of feature/order.go: the order in which features are installed.
pub mod Overrides
mod Samples
use devcontainer.Base.{Bool, true, false, List, [], ◌++◌, Text, is_empty, if◌then◌else◌}
use devcontainer.Config.Types.{ResolvedFeature}
use devcontainer.Feature.Order.{split_by_override}
use devcontainer.Feature.Graph.{
  JsonOps, Installation, installs, cycle_error, too_deep, out_of_fuel, topo_sort,
}

-- The features that an order names come first.
abbrev pub behind : List ResolvedFeature → Installation → Installation
behind overridden (installs sorted warns) = installs (overridden ++ sorted) warns
behind overridden (cycle_error path) = cycle_error path
behind overridden (too_deep depth path) = too_deep depth path
behind overridden out_of_fuel = out_of_fuel

pub order_features : JsonOps → List ResolvedFeature → (override_order : List Text) → Installation
order_features ops features override_order =
    if is_empty features
    then installs features []
    else let (overridden, remaining) = split_by_override features override_order in
      behind overridden (topo_sort ops remaining)
