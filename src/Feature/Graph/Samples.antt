-- ===== src/Feature/Graph/Samples.antt =====
-- Features that require one another, and the theorems about their sort applied to them.
use devcontainer.Base.{
  ℕ, zero, suc, ◌+◌, ◌<◌, ◌≤◌, arith, true, false, List, [], ◌∷◌, Text, text, ◌==◌, text_ltb,
  insert, lookup, sort_by, sort_from, insert_by, filter, any, ◌≡◌, refl,
}
use devcontainer.Feature.Order.{
  normalize_id, same_id, strip_digest, strip_tag, cut_last, has_scheme, has_prefix,
}
use devcontainer.Feature.Graph.Sources.{requires}
use devcontainer.Feature.Graph.Depth.{
  Requirements, first, next, topo_sort-lt-limit, topo_sort-too_deep,
}
use devcontainer.Feature.Graph.Counts.{range_from}
use devcontainer.Feature.Graph.Paths.{
  put, build_deepest_path, all_preds, add_preds, walk_back, first_at_depth, cycle_path, find_cycle,
  dfs, dfs_children, path_of, close_path, follow_parents,
}
use devcontainer.Config.Types.{ResolvedFeature, FeatureSourceKind}
use devcontainer.Config.Merge.Samples.{empty_layer}
use devcontainer.Feature.Graph.{
  JsonOps, dag_error_depth, topo_sort, installs, cycle_error, too_deep, graph, link, predecessors,
  index_from, indices_of, add_edges, edge, start, less, feature_less, run, visit, take_ready,
  relax_all, relax, finish, pick, depth_warnings,
}

abbrev pub plain_ops : JsonOps
plain_ops = record {
  sprint = λ j. [];
  same = λ a b. false;
  deep_equal = λ a b. true;
  marshal = λ m. [];
}

abbrev pub after : Text → List Text → ResolvedFeature
after ref deps = record {
  ref = ref;
  resolved_ref = [];
  dir = [];
  metadata = record empty_layer { installs_after = deps };
  options = [];
  source_kind = FeatureSourceKind.oci;
  already_installed = false;
}

abbrev pub a_then_b : List ResolvedFeature
a_then_b = after (text "b") (text "a" ∷ []) ∷ (after (text "a") [] ∷ [])

sort_two :
    topo_sort plain_ops a_then_b
    ≡ installs (after (text "a") [] ∷ (after (text "b") (text "a" ∷ []) ∷ [])) []
unfolding topo_sort graph link predecessors index_from insert lookup indices_of add_edges edge put
    normalize_id strip_digest strip_tag cut_last has_scheme has_prefix start less sort_by sort_from
    insert_by feature_less filter range_from run visit take_ready relax_all relax build_deepest_path
    all_preds add_preds walk_back first_at_depth finish pick depth_warnings ◌==◌ text_ltb any
sort_two = refl

abbrev circle : List ResolvedFeature
circle = after (text "a") (text "b" ∷ []) ∷ (after (text "b") (text "a" ∷ []) ∷ [])

sort_circle : topo_sort plain_ops circle ≡ cycle_error (text "b" ∷ (text "a" ∷ (text "a" ∷ [])))
unfolding topo_sort graph link predecessors index_from insert lookup indices_of add_edges edge put
    normalize_id strip_digest strip_tag cut_last has_scheme has_prefix start less sort_by sort_from
    insert_by feature_less filter range_from run visit take_ready relax_all relax build_deepest_path
    all_preds add_preds walk_back first_at_depth finish pick depth_warnings ◌==◌ text_ltb any
    cycle_path find_cycle dfs dfs_children path_of close_path follow_parents
sort_circle = refl

abbrev chain : ℕ → List ResolvedFeature
chain zero = []
chain (suc n) = after ((n + 65) ∷ []) (((n + 66) ∷ []) ∷ []) ∷ chain n

-- A chain that is one edge too long.
abbrev refs : ℕ → List Text
refs zero = []
refs (suc n) = ((n + 65) ∷ []) ∷ refs n

sort_chain : topo_sort plain_ops (chain 66) ≡ too_deep 65 (refs 66)
unfolding topo_sort graph link predecessors index_from insert lookup indices_of add_edges edge put
    normalize_id strip_digest strip_tag cut_last has_scheme has_prefix start less sort_by sort_from
    insert_by feature_less filter range_from run visit take_ready relax_all relax build_deepest_path
    all_preds add_preds walk_back first_at_depth finish pick depth_warnings ◌==◌ text_ltb any
sort_chain = refl

abbrev pub a : ResolvedFeature
a = after (text "a") []

abbrev pub b : ResolvedFeature
b = after (text "b") (text "a" ∷ [])

b_after_a : requires plain_ops a_then_b b a ≡ true
unfolding requires same_id any normalize_id strip_digest strip_tag cut_last has_scheme has_prefix
    ◌==◌
b_after_a = refl

topo_sort-lt-limit_example : 1 < dag_error_depth
topo_sort-lt-limit_example =
    topo_sort-lt-limit plain_ops a_then_b (a ∷ (b ∷ [])) [] sort_two (omega arith)
      (next 0 b a (first 1) refl refl b_after_a (omega arith))

topo_sort-too_deep_example :
    (dag_error_depth ≤ 65) × (j : ℕ) × Requirements plain_ops (chain 66) 65 j
topo_sort-too_deep_example = topo_sort-too_deep plain_ops (chain 66) 65 (refs 66) sort_chain
