-- ===== src/Feature/Lockfile.antt =====
-- feature/lockfile.go: the entries of a lockfile, their comparison, and the check of a fetched feature
-- against its entry.
pub mod Changes
pub mod Pins
pub mod Samples
use devcontainer.Base.{
  ℕ, ◌+◌, leb, map, Bool, true, false, not, ◌&&◌, List, [], ◌∷◌, ◌++◌, Option, none, some, Text,
  text, ◌==◌, Map, keys, lookup, is_some, is_empty, sort, if◌then◌else◌,
}
use devcontainer.Config.Types.{
  dependencies, ResolvedFeature, FeatureSourceKind, oci, https, local_dir,
}
use devcontainer.Feature.Order.{cut_last}

-- A `DependsOn` that is nil is not the same as an empty one.
pub record LockedFeature : Type 0 where
  pub version : Text
  pub resolved : Text
  pub integrity : Text
  pub depends_on : Option (List Text)

pub record Lockfile : Type 0 where
  pub features : Map LockedFeature

-- reflect.DeepEqual on entries.
pub texts_equal : List Text → List Text → Bool
texts_equal [] [] = true
texts_equal [] (t ∷ ts) = false
texts_equal (s ∷ ss) [] = false
texts_equal (s ∷ ss) (t ∷ ts) = (s == t) && texts_equal ss ts

pub slices_equal : Option (List Text) → Option (List Text) → Bool
slices_equal none none = true
slices_equal none (some ts) = false
slices_equal (some ss) none = false
slices_equal (some ss) (some ts) = texts_equal ss ts

pub entry_equal : LockedFeature → LockedFeature → Bool
entry_equal v w =
    (v.version == w.version)
    && (v.resolved == w.resolved)
    && (v.integrity == w.integrity)
    && slices_equal v.depends_on w.depends_on

-- A nil lockfile has no entries.
abbrev pub entries : Option Lockfile → Map LockedFeature
entries none = []
entries (some l) = l.features

abbrev pub entry : Option Lockfile → (ref : Text) → Option LockedFeature
entry l ref = lookup ref (entries l)

abbrev pub is_same : LockedFeature → Option LockedFeature → Bool
is_same v none = false
is_same v (some w) = entry_equal v w

-- The two loops of `Changed`: keys whose entry differs in the other lockfile, and keys that are new there.
pub differing : Map LockedFeature → Option Lockfile → List Text
differing [] o = []
differing ((k, v) ∷ es) o =
    let rest = differing es o in if is_same v (entry o k) then rest else k ∷ rest

pub added : Option Lockfile → List Text → List Text
added l [] = []
added l (k ∷ ks) = let rest = added l ks in if is_some (entry l k) then rest else k ∷ rest

pub changed : Option Lockfile → Option Lockfile → List Text
changed l o = sort (differing (entries l) o ++ added l (keys (entries o)))

pub equal : Option Lockfile → Option Lockfile → Bool
equal none none = true
equal none (some o) = false
equal (some l) none = false
equal (some l) (some o) = is_empty (changed (some l) (some o))

-- The artifact digest: that of an OCI `repo@digest`, or the reference itself.
unfoldable pub integrity_of : FeatureSourceKind → (resolved_ref : Text) → Text
integrity_of oci resolved_ref = elim (cut_last b'@' resolved_ref) [
  | none ↦ resolved_ref
  | some (repo, digest) ↦ digest
]
integrity_of https resolved_ref = resolved_ref
integrity_of local_dir resolved_ref = resolved_ref

abbrev pub slice_of : List Text → Option (List Text)
slice_of [] = none
slice_of (t ∷ ts) = some (t ∷ ts)

pub locked : ResolvedFeature → (resolved : Text) → LockedFeature
locked f resolved = record {
  version = f.metadata.version;
  resolved = resolved;
  integrity = integrity_of f.source_kind f.resolved_ref;
  depends_on = slice_of (sort (keys (dependencies f.metadata)));
}

pub lock_as : FeatureSourceKind → ResolvedFeature → Option LockedFeature
lock_as oci f = some (locked f f.resolved_ref)
lock_as https f = some (locked f f.ref)
lock_as local_dir f = none

-- `Lock`
pub lock : ResolvedFeature → Option LockedFeature
lock f = lock_as f.source_kind f

-- strings.ToLower on ASCII, which references are written in.
abbrev pub lower_byte : ℕ → ℕ
lower_byte c = if leb b'A' c && leb c b'Z' then c + 32 else c

abbrev pub to_lower : Text → Text
to_lower s = map lower_byte s

-- `PinnedRef`; `repository` is the name of the repository that an OCI reference parses to, if it does.
pub pinned_as :
    (repository : Text → Option Text)
    → FeatureSourceKind
    → (ref : Text) → LockedFeature
    → Option Text
pinned_as repository oci ref e = elim (repository (to_lower ref)) [
  | none ↦ none
  | some repo ↦ some (repo ++ b'@' ∷ e.integrity)
]
pinned_as repository https ref e = some ref
pinned_as repository local_dir ref e = some ref

pub pinned_ref : (repository : Text → Option Text) → ResolvedFeature → LockedFeature → Option Text
pinned_ref repository f e = pinned_as repository f.source_kind f.ref e

pub record FeatureIntegrityError : Type 0 where
  pub ref : Text
  pub want : Text
  pub got : Text

unfoldable pub check_integrity :
    ResolvedFeature → (fetched_ref : Text) → LockedFeature → Option FeatureIntegrityError
check_integrity f fetched_ref e =
    let got = integrity_of f.source_kind fetched_ref in
    if got == e.integrity
    then none
    else some (record { ref = f.ref; want = e.integrity; got = got })
