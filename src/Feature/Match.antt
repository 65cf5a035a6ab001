-- ===== src/Feature/Match.antt =====
-- feature/match.go: whether a feature that a base image has satisfies a request.
mod Laws
mod Samples
use devcontainer.Base.{
  ℕ, zero, suc, ◌+◌, ◌-◌, ◌*◌, Bool, true, false, not, ◌&&◌, ◌||◌, List, [], ◌∷◌, Option, none,
  some, Text, text, ◌==◌, nat_beq, ltb, leb, is_empty, if◌then◌else◌,
}
use devcontainer.Config.Types.{FeatureMetadata, ResolvedFeature}

pub data MatchMode : Type 0 where
  match_permissive match_strict : MatchMode

pub record Semver : Type 0 where
  pub major : ℕ
  pub minor : ℕ
  pub patch : ℕ

-- strings.TrimPrefix(v, "v")
pub trim_v : Text → Text
trim_v [] = []
trim_v (c ∷ v) = if nat_beq c b'v' then v else c ∷ v

-- What stands before the first `-` or `+`.
pub cut_qualifier : Text → Text
cut_qualifier [] = []
cut_qualifier (c ∷ v) =
    let rest = cut_qualifier v in if nat_beq c b'-' || nat_beq c b'+' then [] else c ∷ rest

-- strings.Split(v, "."): the first part and the others.
pub split_dots : Text → Text × List Text
split_dots [] = ([], [])
split_dots (c ∷ v) =
    let (part, parts) = split_dots v in
    if nat_beq c b'.' then ([], part ∷ parts) else (c ∷ part, parts)

abbrev pub max_int : ℕ
max_int = 9223372036854775807

-- strconv.Atoi behind `n` so far; a part has no sign, since `cut_qualifier` stops at one.
pub atoi_from : ℕ → Text → Option ℕ
atoi_from n [] = if leb n max_int then some n else none
atoi_from n (c ∷ p) =
    let rest = atoi_from (n * 10 + (c - b'0')) p in if leb b'0' c && leb c b'9' then rest else none

pub atoi : Text → Option ℕ
atoi [] = none
atoi (c ∷ p) = atoi_from 0 (c ∷ p)

-- The loop over the parts; a part that is missing counts as zero.
pub atoi_all : List Text → Option (List ℕ)
atoi_all [] = some []
atoi_all (p ∷ ps) = elim (atoi p) [
  | none ↦ none
  | some n ↦ elim (atoi_all ps) [ none ↦ none | some ns ↦ some (n ∷ ns) ]
]

pub semver_of : Option (List ℕ) → Option Semver
semver_of none = none
semver_of (some []) = none
semver_of (some (a ∷ [])) = some (record { major = a; minor = 0; patch = 0 })
semver_of (some (a ∷ b ∷ [])) = some (record { major = a; minor = b; patch = 0 })
semver_of (some (a ∷ b ∷ c ∷ [])) = some (record { major = a; minor = b; patch = c })
semver_of (some (a ∷ b ∷ c ∷ d ∷ rest)) = none

pub parse_semver : Text → Option Semver
parse_semver v =
    let (part, parts) = split_dots (cut_qualifier (trim_v v)) in semver_of (atoi_all (part ∷ parts))

pub semver_gte : Semver → Semver → Bool
semver_gte a b =
    if not (nat_beq a.major b.major)
    then ltb b.major a.major
    else if not (nat_beq a.minor b.minor)
    then ltb b.minor a.minor
    else if not (nat_beq a.patch b.patch)
    then ltb b.patch a.patch
    else true

-- The last lines of `Matches`: two versions that both parse are compared, others must be equal.
pub satisfies : Option Semver → Option Semver → (same : Bool) → Bool
satisfies (some a) (some b) same = semver_gte a b
satisfies (some a) none same = same
satisfies none b same = same

pub matches_version : Text → Text → MatchMode → Bool
matches_version baked req match_strict = baked == req
matches_version baked req match_permissive =
    if req == [] then true else satisfies (parse_semver baked) (parse_semver req) (baked == req)

pub matches : FeatureMetadata → FeatureMetadata → MatchMode → Bool
matches baked req mode =
    if (baked.id == []) || not (baked.id == req.id)
    then false
    else matches_version baked.version req.version mode

pub matches_resolved : ResolvedFeature → ResolvedFeature → MatchMode → Bool
matches_resolved baked req match_strict =
    not (baked.metadata.id == [])
    && ((baked.metadata.id == req.metadata.id)
        && (not (baked.resolved_ref == []) && (baked.resolved_ref == req.resolved_ref)))
matches_resolved baked req match_permissive = matches baked.metadata req.metadata match_permissive
