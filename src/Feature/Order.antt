-- ===== src/Feature/Order.antt =====
-- feature/order.go and normalizeID of feature/graph.go: the user's order of features.
pub mod Split
pub mod Ids
mod Samples
use devcontainer.Base.{
  ℕ, Bool, true, false, not, ◌&&◌, ◌||◌, List, [], ◌∷◌, ◌++◌, Option, none, some, Text, text, ◌==◌,
  nat_beq, any, filter, if◌then◌else◌,
}
use devcontainer.Config.Types.{ResolvedFeature}

-- What stands before and behind the last `b`, that is at strings.LastIndex.
unfoldable pub cut_last : ℕ → Text → Option (Text × Text)
cut_last b [] = none
cut_last b (c ∷ s) = elim (cut_last b s) [
  | some (pre, post) ↦ some (c ∷ pre, post)
  | none ↦ if nat_beq c b then some ([], s) else none
]

unfoldable pub has_prefix : Text → Text → Bool
has_prefix [] s = true
has_prefix (c ∷ p) [] = false
has_prefix (c ∷ p) (d ∷ s) = nat_beq c d && has_prefix p s

-- strings.Contains(s, "://")
unfoldable pub has_scheme : Text → Bool
has_scheme [] = false
has_scheme (c ∷ s) = has_prefix (text "://") (c ∷ s) || has_scheme s

unfoldable pub strip_digest : Text → Text
strip_digest ref = elim (cut_last b'@' ref) [ none ↦ ref | some (pre, post) ↦ pre ]

-- The last `/` stands behind the `:` where one stands behind it at all.
unfoldable pub strip_tag : Text → Text
strip_tag ref = elim (cut_last b':' ref) [
  | none ↦ ref
  | some (pre, post) ↦ if not (has_scheme pre) || any (nat_beq b'/') post then pre else ref
]

unfoldable pub normalize_id : Text → Text
normalize_id ref = strip_tag (strip_digest ref)

unfoldable pub same_id : Text → ResolvedFeature → Bool
same_id ord f = normalize_id f.ref == normalize_id ord

-- The features that no entry has taken so far are the ones still in the list.
unfoldable pub split_by_override :
    List ResolvedFeature → List Text → List ResolvedFeature × List ResolvedFeature
split_by_override features [] = ([], features)
split_by_override features (ord ∷ order) =
    let (overridden, remaining) =
      split_by_override (filter (λ f. not (same_id ord f)) features) order in
    (filter (same_id ord) features ++ overridden, remaining)
