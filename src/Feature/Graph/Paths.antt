-- ===== src/Feature/Graph/Paths.antt =====
-- What the errors of feature/graph.go report: the chain to a deep feature (buildDeepestPath), and a
-- cycle (cyclePath). A slice is a function of the index.
use devcontainer.Base.{
  ℕ, zero, suc, Bool, true, false, List, [], ◌∷◌, ◌++◌, Option, none, some, Text, text, nat_beq,
  ltb, if◌then◌else◌,
}

-- `f[i] = v`
unfoldable pub put {ℓ} : {A : Type ℓ} → ℕ → A → (ℕ → A) → ℕ → A
put i v f j = if nat_beq i j then v else f j

-- `preds`: an index stands once for each edge.
unfoldable pub add_preds : ℕ → List ℕ → (ℕ → List ℕ) → ℕ → List ℕ
add_preds i [] preds = preds
add_preds i (j ∷ children) preds = add_preds i children (put j (preds j ++ i ∷ []) preds)

unfoldable pub all_preds : (ℕ → List ℕ) → List ℕ → (ℕ → List ℕ) → ℕ → List ℕ
all_preds adj [] preds = preds
all_preds adj (i ∷ is) preds = all_preds adj is (add_preds i (adj i) preds)

unfoldable pub first_at_depth : (ℕ → ℕ) → ℕ → List ℕ → Option ℕ
first_at_depth depth d [] = none
first_at_depth depth d (p ∷ ps) =
    let later = first_at_depth depth d ps in if nat_beq (depth p) d then some p else later

-- `left` is the depth of `cur`, which falls by one with each step.
unfoldable pub walk_back :
    (ref : ℕ → Text) (depth : ℕ → ℕ) (preds : ℕ → List ℕ) (left cur : ℕ) → List Text → List Text
walk_back ref depth preds zero cur path = path
walk_back ref depth preds (suc left) cur path = elim (first_at_depth depth left (preds cur)) [
  | none ↦ path
  | some prev ↦ walk_back ref depth preds left prev (ref prev ∷ path)
]

unfoldable pub build_deepest_path :
    (indices : List ℕ) (ref : ℕ → Text) (depth : ℕ → ℕ) (adj : ℕ → List ℕ) (target : ℕ) → List Text
build_deepest_path indices ref depth adj target =
    walk_back ref depth (all_preds adj indices (λ _. [])) (depth target) target (ref target ∷ [])

pub data Color : Type 0 where
  white gray black : Color

-- The variables of `cyclePath`; a parent of -1 is `none`.
pub record Search : Type 0 where
  pub color : ℕ → Color
  pub parent : ℕ → Option ℕ

-- What `dfs` returns: true with the start and the end of a cycle, or false.
pub data Found : Type 0 where
  cycle : Search → (start end : ℕ) → Found
  no_cycle : Search → Found
  out_of_fuel : Found

-- A cycle ends the search; without one the loop goes on.
abbrev pub after_child : Found → (Search → Found) → Found
after_child (cycle t start end) rest = cycle t start end
after_child (no_cycle t) rest = rest t
after_child out_of_fuel rest = out_of_fuel

-- The loop over `adj[u]`, with `dfs` for the calls that it makes.
unfoldable pub dfs_children : (dfs : ℕ → Search → Found) → ℕ → List ℕ → Search → Found
dfs_children dfs u [] s = no_cycle (record s { color = put u black s.color })
dfs_children dfs u (v ∷ vs) s = elim (s.color v) [
  | white ↦
      after_child (dfs v (record s { parent = put v (some u) s.parent })) (dfs_children dfs u vs)
  | gray ↦ cycle s v u
  | black ↦ dfs_children dfs u vs s
]

-- Calls nest at most as deep as there are white indices, so one level for each index is enough.
unfoldable pub dfs : ℕ → (ℕ → List ℕ) → ℕ → Search → Found
dfs zero adj u s = out_of_fuel
dfs (suc fuel) adj u s =
    dfs_children (λ v t. dfs fuel adj v t) u (adj u) (record s { color = put u gray s.color })

abbrev pub is_white : Color → Bool
is_white white = true
is_white _ = false

-- The loop over the indices that still have edges into them.
unfoldable pub find_cycle : ℕ → (in_degree : ℕ → ℕ) (adj : ℕ → List ℕ) → List ℕ → Search → Found
find_cycle fuel in_degree adj [] s = no_cycle s
find_cycle fuel in_degree adj (i ∷ is) s = elim (ltb 0 (in_degree i)) [
  | false ↦ find_cycle fuel in_degree adj is s
  | true ↦ elim (is_white (s.color i)) [
    | false ↦ find_cycle fuel in_degree adj is s
    | true ↦ after_child (dfs fuel adj i s) (find_cycle fuel in_degree adj is)
  ]
]

-- The loop from the end of the cycle back to its start; `none` if the fuel runs out, or at a parent
-- of -1, where the code would panic.
unfoldable pub follow_parents :
    ℕ → (ref : ℕ → Text) → Search → (start v : ℕ) → List Text → Option (List Text)
follow_parents zero ref s start v path = none
follow_parents (suc fuel) ref s start v path = elim (nat_beq v start) [
  | true ↦ some path
  | false ↦ elim (s.parent v) [
    | none ↦ none
    | some p ↦ follow_parents fuel ref s start p (ref v ∷ path)
  ]
]

unfoldable pub close_path : (last : Text) → Option (List Text) → Option (List Text)
close_path last none = none
close_path last (some path) = some (path ++ last ∷ [])

-- The path begins as the start alone, grows in front, and gets the start once more at its end.
unfoldable pub path_of : ℕ → (ref : ℕ → Text) → Found → Option (List Text)
path_of fuel ref (cycle s start end) =
    close_path (ref start) (follow_parents fuel ref s start end (ref start ∷ []))
path_of fuel ref (no_cycle s) = some (text "<unknown cycle>" ∷ [])
path_of fuel ref out_of_fuel = none

unfoldable pub cycle_path :
    (n : ℕ) (indices : List ℕ) (ref : ℕ → Text) (in_degree : ℕ → ℕ) (adj : ℕ → List ℕ)
    → Option (List Text)
cycle_path n indices ref in_degree adj =
    path_of n ref
      (find_cycle n in_degree adj indices (record { color = λ _. white; parent = λ _. none }))
