-- ===== src/Feature/Graph/Acyclic.antt =====
-- Features that do not require one another in a circle are sorted.
use devcontainer.Base.{ℕ, ◌<◌, true, List, some, length, get_elem?, ◌≡◌}
use devcontainer.Config.Types.{ResolvedFeature}
use devcontainer.Feature.Graph.{JsonOps}
use devcontainer.Feature.Graph.Sources.{requires}

module _ (ops : JsonOps) (features : List ResolvedFeature) where
  -- The rank falls from each feature to what it requires, so the requirements have no circle.
  abbrev pub IsRanked : (ℕ → ℕ) → Type 0
  IsRanked rank =
      (i k : ℕ) (f g : ResolvedFeature)
      → get_elem? features i ≡ some f
      → get_elem? features k ≡ some g
      → requires ops features f g ≡ true
      → rank k < rank i

  abbrev n : ℕ
  n = length features
