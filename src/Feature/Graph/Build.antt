-- ===== src/Feature/Graph/Build.antt =====
-- Which edges the graph of features has.
use devcontainer.Base.{
  ℕ, zero, suc, ◌+◌, ◌≤◌, ◌<◌, Bool, false, List, [], ◌∷◌, ◌++◌, Option, Text, Map, length, nat_beq,
  lookup, insert, lookup-insert, ◌==◌, eq_iff, if◌then◌else◌, if_ind, ◌≡◌, refl, ap, ◌∙◌, arith,
  Bool-cases, inl, inr,
}
use devcontainer.Config.Types.{ResolvedFeature}
use devcontainer.Feature.Order.{normalize_id}
use devcontainer.Feature.Graph.{Adjacency, edge, add_edges, index_from, indices_of, or_no_index}
use devcontainer.Feature.Graph.Counts.{count, count-append}
use devcontainer.Feature.Graph.Edges.{open_edges, open_edges-put}
use devcontainer.Feature.Graph.Paths.{put}

-- The in-degree of each index is the number of edges into it, and edges end below `n`.
pub record IsCounted (n : ℕ) (g : Adjacency) : Type 0 where
  pub total : (j : ℕ) → g.in_degree j ≡ open_edges n g.adj [] j
  pub range : (j : ℕ) → n ≤ j → g.in_degree j ≡ 0

edge-IsCounted :
    (n from to : ℕ) (g : Adjacency)
    → from < n
    → to < n
    → IsCounted n g
    → IsCounted n (edge from to g)
unfolding edge put
edge-IsCounted n from to g h k c = record {
  total = λ j. ground (
    arith,
    open_edges-put n g.adj from to j,
    c.total j,
    c.total to,
    ap (λ i. g.in_degree i) {x = to} {y = j},
  );
  range = λ j above. ground (arith, c.range j);
}

pub count-add_edges :
    (js : List ℕ) (to : ℕ) (g : Adjacency) (i j : ℕ)
    → count j ((add_edges js to g).adj i)
      ≡ count j (g.adj i) + (if nat_beq to j then count i js else 0)
unfolding add_edges count edge put
count-add_edges [] to g i j = ground arith
count-add_edges (k ∷ js) to g i j = elim (Bool-cases (nat_beq k i)) [
  | inl same ↦
      let e : k ≡ i = ground (arith, same) in
      rw e (
        ground (arith, count-add_edges js to (edge i to g) i j, count-append j (g.adj i) (to ∷ [])))
  | inr other ↦ ground (arith, count-add_edges js to (edge k to g) i j, other)
]

pub add_edges-IsCounted :
    (n : ℕ) (js : List ℕ) (to : ℕ) (g : Adjacency)
    → ((i : ℕ) → n ≤ i → count i js ≡ 0)
    → to < n
    → IsCounted n g
    → IsCounted n (add_edges js to g)
unfolding add_edges count
add_edges-IsCounted n [] to g h k c = c
add_edges-IsCounted n (j ∷ js) to g h k c =
    add_edges-IsCounted n js to (edge j to g) (λ i above. ground (arith, h i)) k
      (edge-IsCounted n j to g (ground (arith, h j)) k c)

-- `features[k]` has the id.
unfoldable pub named : List ResolvedFeature → Text → ℕ → Bool
named [] id k = false
named (f ∷ fs) id zero = normalize_id f.ref == id
named (f ∷ fs) id (suc k) = named fs id k

indices_of-insert :
    (id asked : Text) (is : List ℕ) (idx : Map (List ℕ))
    → indices_of (insert id is idx) asked ≡ (if id == asked then is else indices_of idx asked)
unfolding indices_of
indices_of-insert id asked is idx =
    ap or_no_index (lookup-insert id asked is idx)
    ∙ if_ind
        (λ (r : Option (List ℕ)).
          or_no_index r ≡ (if id == asked then is else or_no_index (lookup asked idx)))
        (id == asked) (λ h. rw h refl) (λ h. rw h refl)

index_from-below :
    (i : ℕ) (fs : List ResolvedFeature) (idx : Map (List ℕ)) (id : Text) (k : ℕ)
    → k < i
    → count k (indices_of (index_from i fs idx) id) ≡ count k (indices_of idx id)
unfolding index_from count
index_from-below i [] idx id k h = refl
index_from-below i (f ∷ fs) idx id k h =
    let own = normalize_id f.ref in
    let is = indices_of idx own ++ i ∷ [] in
    ground (
      arith,
      index_from-below (suc i) fs (insert own is idx) id k (omega arith),
      ap (count k) (indices_of-insert own id is idx),
      count-append k (indices_of idx own) (i ∷ []),
      eq_iff own id,
      ap (λ t. count k (indices_of idx t)) {x = own} {y = id},
    )

index_from_lem :
    (i : ℕ) (fs : List ResolvedFeature) (idx : Map (List ℕ)) (id : Text) (k m : ℕ)
    → i + k ≡ m
    → count m (indices_of (index_from i fs idx) id)
      ≡ count m (indices_of idx id) + (if named fs id k then 1 else 0)
unfolding index_from named count
index_from_lem i [] idx id k m e = omega arith
index_from_lem i (f ∷ fs) idx id zero m e =
    let own = normalize_id f.ref in
    let is = indices_of idx own ++ i ∷ [] in
    ground (
      arith,
      index_from-below (suc i) fs (insert own is idx) id m (omega arith),
      ap (count m) (indices_of-insert own id is idx),
      count-append m (indices_of idx own) (i ∷ []),
      eq_iff own id,
      ap (λ t. count m (indices_of idx t)) {x = own} {y = id},
    )
index_from_lem i (f ∷ fs) idx id (suc k) m e =
    let own = normalize_id f.ref in
    let is = indices_of idx own ++ i ∷ [] in
    ground (
      arith,
      index_from_lem (suc i) fs (insert own is idx) id k m (omega arith),
      ap (count m) (indices_of-insert own id is idx),
      count-append m (indices_of idx own) (i ∷ []),
      eq_iff own id,
      ap (λ t. count m (indices_of idx t)) {x = own} {y = id},
    )

-- The index finds an id at each feature that has it, once.
pub count-indices_of :
    (features : List ResolvedFeature) (id : Text) (k : ℕ)
    → count k (indices_of (index_from 0 features []) id) ≡ (if named features id k then 1 else 0)
unfolding indices_of count lookup
count-indices_of features id k = omega (arith, index_from_lem 0 features [] id k k (omega arith))

pub named-above :
    (fs : List ResolvedFeature) (id : Text) (k : ℕ) → length fs ≤ k → named fs id k ≡ false
unfolding named
named-above [] id k h = refl
named-above (f ∷ fs) id zero h = absurd (omega arith)
named-above (f ∷ fs) id (suc k) h = named-above fs id k (omega arith)
