-- ===== src/Feature/Install/Samples.antt =====
-- An order of two features against what they require of one another.
use mathlib.Core.List.{Perm}
use devcontainer.Base.{[], ◌∷◌, text, ◌==◌, filter, ◌≡◌, refl}
use devcontainer.Feature.Order.{
  split_by_override, same_id, normalize_id, strip_digest, strip_tag, cut_last, has_scheme,
  has_prefix,
}
use devcontainer.Feature.Graph.{topo_sort, installs}
use devcontainer.Feature.Graph.Samples.{plain_ops, a_then_b, a, b}
use devcontainer.Feature.Install.{order_features}
use devcontainer.Feature.Install.Overrides.{IsPlan, order_features-installs}

order_b : order_features plain_ops a_then_b (text "b" ∷ []) ≡ installs (b ∷ (a ∷ [])) []
unfolding order_features topo_sort split_by_override same_id normalize_id strip_digest strip_tag
    cut_last has_scheme has_prefix ◌==◌ filter
order_b = refl

order_features-installs_example :
    Perm (b ∷ (a ∷ [])) a_then_b × IsPlan plain_ops a_then_b (text "b" ∷ []) (b ∷ (a ∷ []))
order_features-installs_example =
    order_features-installs plain_ops a_then_b (text "b" ∷ []) (b ∷ (a ∷ [])) [] order_b
