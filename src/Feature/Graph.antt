-- ===== src/Feature/Graph.antt =====
-- feature/graph.go: the graph of features and the order in which it installs them. A slice that is
-- as long as the features is a function of the index, read below their number only.
mod Counts
mod Paths
mod Edges
mod Build
mod Sources
mod Link
mod Loop
mod Picks
pub mod Order
mod Deepening
pub mod Depth
pub mod Acyclic
mod Search
pub mod Samples
use devcontainer.Base.{
  ℕ, zero, suc, ◌+◌, ◌-◌, Bool, true, false, not, ◌&&◌, ◌||◌, List, [], ◌∷◌, ◌++◌, map, Option,
  none, some, Text, text, ◌==◌, text_ltb, Map, lookup, insert, filter, flatten, all, length,
  get_elem?, is_empty, ltb, leb, nat_beq, sort_by, if◌then◌else◌,
}
use devcontainer.Config.Types.{
  dependencies, Json, ResolvedFeature, FeatureMetadata, Warning, deep_feature_chain,
}
use devcontainer.Feature.Order.{normalize_id}
use devcontainer.Feature.Options.{Merged, merged, rejected, merge_options}
use devcontainer.Feature.Graph.Counts.{range_from}
use devcontainer.Feature.Graph.Paths.{put, build_deepest_path, cycle_path}

abbrev pub dag_warn_depth : ℕ
dag_warn_depth = 16

abbrev pub dag_error_depth : ℕ
dag_error_depth = 64

-- The standard library on JSON values: fmt.Sprint, `==`, reflect.DeepEqual and json.Marshal.
pub record JsonOps : Type 0 where
  pub sprint : Json → Text
  pub same : Json → Json → Bool
  pub deep_equal : Map Json → Map Json → Bool
  pub marshal : Map Json → Text

-- What `topoSort` returns; `out_of_fuel` is not an outcome of the code.
pub data Installation : Type 0 where
  installs : List ResolvedFeature → List Warning → Installation
  cycle_error : List Text → Installation
  too_deep : ℕ → List Text → Installation
  out_of_fuel : Installation

pub record Adjacency : Type 0 where
  pub adj : ℕ → List ℕ
  pub in_degree : ℕ → ℕ

abbrev pub or_no_index : Option (List ℕ) → List ℕ
or_no_index none = []
or_no_index (some is) = is

-- `idx[id]`
pub indices_of : Map (List ℕ) → Text → List ℕ
indices_of idx id = or_no_index (lookup id idx)

-- `idx`, from the index `i` on.
pub index_from : ℕ → List ResolvedFeature → Map (List ℕ) → Map (List ℕ)
index_from i [] idx = idx
index_from i (f ∷ fs) idx =
    let id = normalize_id f.ref in
    index_from (suc i) fs (insert id (indices_of idx id ++ i ∷ []) idx)

pub edge : (from to : ℕ) → Adjacency → Adjacency
edge from to g = record {
  adj = put from (g.adj from ++ to ∷ []) g.adj;
  in_degree = put to (g.in_degree to + 1) g.in_degree;
}

pub add_edges : List ℕ → (to : ℕ) → Adjacency → Adjacency
add_edges [] to g = g
add_edges (j ∷ js) to g = add_edges js to (edge j to g)

abbrev pub ref_of : Option ResolvedFeature → Text
ref_of none = []
ref_of (some f) = f.ref

-- The features at some indices.
pub pick : List ResolvedFeature → List ℕ → List ResolvedFeature
pick features [] = []
pick features (i ∷ is) = elim (get_elem? features i) [
  | none ↦ pick features is
  | some f ↦ f ∷ pick features is
]

-- strings.Join(path, " -> ")
pub join_arrows : List Text → Text
join_arrows [] = []
join_arrows (ref ∷ []) = ref
join_arrows (ref ∷ next ∷ path) = ref ++ (text " -> " ++ join_arrows (next ∷ path))

pub depth_warnings : ℕ → List Text → List Warning
depth_warnings max_depth path =
    if leb dag_warn_depth max_depth
    then record {
      warning_code = deep_feature_chain;
      message = join_arrows path;
      path = [];
      source = [];
    }
      ∷ []
    else []

-- The variables of the main loop; `out` holds indices, and the code the features at them.
pub record Kahn : Type 0 where
  pub in_degree : ℕ → ℕ
  pub depth : ℕ → ℕ
  pub ready : List ℕ
  pub out : List ℕ
  pub max_depth : ℕ
  pub deepest_path : List Text

-- The body of the loop over the children of `i`.
pub relax : (i : ℕ) → Kahn → (j : ℕ) → Kahn
relax i s j =
    let left = s.in_degree j - 1 in
    record s {
      depth = if ltb (s.depth j) (s.depth i + 1) then put j (s.depth i + 1) s.depth else s.depth;
      in_degree = put j left s.in_degree;
      ready = if nat_beq left 0 then s.ready ++ j ∷ [] else s.ready;
    }

pub relax_all : (i : ℕ) → Kahn → List ℕ → Kahn
relax_all i s [] = s
relax_all i s (j ∷ children) = relax_all i (relax i s j) children

pub take_ready : (path : List Text) (i : ℕ) (rest : List ℕ) → Kahn → Kahn
take_ready path i rest s =
    let deeper = ltb s.max_depth (s.depth i) in
    record s {
      ready = rest;
      out = s.out ++ i ∷ [];
      max_depth = if deeper then s.depth i else s.max_depth;
      deepest_path = if deeper then path else s.deepest_path;
    }

module _ (ops : JsonOps) where
  unfoldable pub same_options : ResolvedFeature → Map Json → Bool
  same_options f opts = elim (merge_options ops.sprint ops.same f.metadata opts) [
    | merged m unknown ↦ ops.deep_equal m f.options
    | rejected unknown e ↦ false
  ]

  abbrev pub has_options : Map Json → Option ResolvedFeature → Bool
  has_options opts none = false
  has_options opts (some f) = same_options f opts

  pub dependency_entries : List ResolvedFeature → (candidates : List ℕ) → Map Json → List ℕ
  dependency_entries features candidates opts =
      let out = filter (λ j. has_options opts (get_elem? features j)) candidates in
      if is_empty out then candidates else out

  pub feature_less : ResolvedFeature → ResolvedFeature → Bool
  feature_less a b =
      if not (a.ref == b.ref)
      then text_ltb a.ref b.ref
      else text_ltb (ops.marshal a.options) (ops.marshal b.options)

  abbrev pub found_less : Option ResolvedFeature → Option ResolvedFeature → Bool
  found_less none b = false
  found_less (some a) none = false
  found_less (some a) (some b) = feature_less a b

  module _ (features : List ResolvedFeature) where
    -- The sources of the edges into `f`, in the order in which they are added.
    pub predecessors : Map (List ℕ) → ResolvedFeature → List ℕ
    predecessors idx f =
        flatten (map (λ dep. indices_of idx (normalize_id dep)) f.metadata.installs_after)
        ++ flatten (
            map (λ e. dependency_entries features (indices_of idx (normalize_id e.0)) e.1)
              (dependencies f.metadata))

    pub link : Map (List ℕ) → ℕ → List ResolvedFeature → Adjacency → Adjacency
    link idx i [] g = g
    link idx i (f ∷ fs) g = link idx (suc i) fs (add_edges (predecessors idx f) i g)

    pub graph : Adjacency
    graph =
        link (index_from 0 features []) 0 features (record { adj = λ _. []; in_degree = λ _. 0 })

    pub less : ℕ → ℕ → Bool
    less a b = found_less (get_elem? features a) (get_elem? features b)

    abbrev pub indices : List ℕ
    indices = range_from 0 (length features)

    abbrev pub ref_at : ℕ → Text
    ref_at i = ref_of (get_elem? features i)

    -- One round of the main loop.
    pub visit : (ℕ → List ℕ) → Kahn → (i : ℕ) (rest : List ℕ) → Kahn
    visit adj s i rest =
        relax_all i (take_ready (build_deepest_path indices ref_at s.depth adj i) i rest s)
          (sort_by less (adj i))

    pub run : ℕ → (ℕ → List ℕ) → Kahn → Option Kahn
    run zero adj s = elim s.ready [ [] ↦ some s | i ∷ rest ↦ none ]
    run (suc fuel) adj s = elim s.ready [
      | [] ↦ some s
      | i ∷ rest ↦ run fuel adj (visit adj s i rest)
    ]

    pub start : Adjacency → Kahn
    start g = record {
      in_degree = g.in_degree;
      depth = λ _. 0;
      ready = sort_by less (filter (λ i. nat_beq (g.in_degree i) 0) indices);
      out = [];
      max_depth = 0;
      deepest_path = [];
    }

    abbrev pub cycle_result : Option (List Text) → Installation
    cycle_result none = out_of_fuel
    cycle_result (some path) = cycle_error path

    -- What follows the main loop.
    pub finish : (ℕ → List ℕ) → Option Kahn → Installation
    finish adj none = out_of_fuel
    finish adj (some s) =
        if ltb (length s.out) (length features)
        then cycle_result (cycle_path (length features) indices ref_at s.in_degree adj)
        else if leb dag_error_depth s.max_depth
        then too_deep s.max_depth s.deepest_path
        else installs (pick features s.out) (depth_warnings s.max_depth s.deepest_path)

    unfoldable pub topo_sort : Installation
    topo_sort =
        if leb (length features) 1
        then installs features []
        else finish graph.adj (run (length features) graph.adj (start graph))
