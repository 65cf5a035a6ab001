-- ===== src/Engine/Lock.antt =====
-- lockfile.go: one run's view of the lockfile, from reading it to committing what was resolved.
mod Baked
mod Commits
mod Samples
use devcontainer.Base.{
  Bool, true, false, not, ◌&&◌, ◌||◌, List, [], ◌∷◌, Option, none, some, Text, ◌==◌, Map, insert,
  if◌then◌else◌,
}
use devcontainer.Config.Types.{
  ResolvedFeature, FeatureMetadata, FeatureSourceKind, oci, https, local_dir,
}
use devcontainer.Feature.Lockfile.{
  LockedFeature, Lockfile, FeatureIntegrityError, entry, lock, equal, changed, check_integrity,
}

pub data LockfileMode : Type 0 where
  lockfile_default lockfile_frozen lockfile_disabled lockfile_upgrade : LockfileMode

-- A lockfile that is missing is none.
pub record FeatureLock : Type 0 where
  pub mode : LockfileMode
  pub existing : Option Lockfile

abbrev pub is_disabled : LockfileMode → Bool
is_disabled lockfile_disabled = true
is_disabled _ = false

abbrev pub is_frozen : LockfileMode → Bool
is_frozen lockfile_frozen = true
is_frozen _ = false

abbrev pub is_upgrade : LockfileMode → Bool
is_upgrade lockfile_upgrade = true
is_upgrade _ = false

abbrev pub is_local : FeatureSourceKind → Bool
is_local local_dir = true
is_local _ = false

-- What reading the lockfile gives: a lockfile or none, or an error with its cause.
pub data ReadOutcome : Type 0 where
  read : Option Lockfile → ReadOutcome
  unreadable : (cause : Text) → ReadOutcome

pub data Loaded : Type 0 where
  loaded : FeatureLock → Loaded
  missing_lockfile : Loaded
  read_error : (cause : Text) → Loaded

abbrev pub load_read : LockfileMode → ReadOutcome → Loaded
load_read mode (unreadable cause) = read_error cause
load_read mode (read none) =
    if is_frozen mode then missing_lockfile else loaded (record { mode = mode; existing = none })
load_read mode (read (some l)) = loaded (record { mode = mode; existing = some l })

-- `loadFeatureLock`, with what `ReadLockfile` gives.
pub load_feature_lock : LockfileMode → ReadOutcome → Loaded
load_feature_lock mode outcome =
    if is_disabled mode
    then loaded (record { mode = mode; existing = none })
    else load_read mode outcome

-- The entry that a feature must resolve to, if any.
unfoldable pub pin : FeatureLock → ResolvedFeature → Option LockedFeature
pin l f = if is_upgrade l.mode || is_local f.source_kind then none else entry l.existing f.ref

abbrev pub is_intact : Option FeatureIntegrityError → Bool
is_intact none = true
is_intact (some e) = false

abbrev pub fits_pin : ResolvedFeature → (baked_ref : Text) → Option LockedFeature → Bool
fits_pin f baked_ref none = true
fits_pin f baked_ref (some e) = is_intact (check_integrity f baked_ref e)

-- May the base image's installation stand in for the feature?
pub accepts_baked : FeatureLock → ResolvedFeature → FeatureMetadata → Bool
accepts_baked l f baked =
    if is_disabled l.mode
    then true
    else if is_upgrade l.mode
    then false
    else not (baked.resolved_ref == []) && fits_pin f baked.resolved_ref (pin l f)

-- The entry that a feature gets: its pin where the base image carries it, or a new one.
abbrev pub keep_pin :
    (installed : Bool) → Option LockedFeature → ResolvedFeature → Option LockedFeature
keep_pin true (some e) f = some e
keep_pin true none f = lock f
keep_pin false pinned f = lock f

pub entry_for : FeatureLock → ResolvedFeature → Option LockedFeature
entry_for l f = keep_pin f.already_installed (pin l f) f

abbrev pub put_entry : Text → Option LockedFeature → Map LockedFeature → Map LockedFeature
put_entry ref none next = next
put_entry ref (some e) next = insert ref e next

pub collect_entries : FeatureLock → Map LockedFeature → List ResolvedFeature → Map LockedFeature
collect_entries l next [] = next
collect_entries l next (f ∷ fs) = collect_entries l (put_entry f.ref (entry_for l f) next) fs

abbrev pub next_lockfile : FeatureLock → List ResolvedFeature → Lockfile
next_lockfile l fs = record { features = collect_entries l [] fs }

-- What `commit` does: nothing, an error with the keys that would change, or writing a lockfile.
pub data Commit : Type 0 where
  nothing_to_do : Commit
  mismatch : List Text → Commit
  write : Lockfile → Commit

pub commit : FeatureLock → List ResolvedFeature → Commit
commit l fs =
    let next = next_lockfile l fs in
    if is_disabled l.mode
    then nothing_to_do
    else if equal (some next) l.existing
    then nothing_to_do
    else if is_frozen l.mode
    then mismatch (changed (some next) l.existing)
    else write next

pub data CommitOutcome : Type 0 where
  committed : Commit → CommitOutcome
  commit_read_error : (cause : Text) → CommitOutcome

abbrev pub commit_none : LockfileMode → ReadOutcome → CommitOutcome
commit_none mode (unreadable cause) = commit_read_error cause
commit_none mode (read none) = committed nothing_to_do
commit_none mode (read (some l)) = committed (commit (record { mode = mode; existing = some l }) [])

-- `commitNoFeatures`
pub commit_no_features : LockfileMode → ReadOutcome → CommitOutcome
commit_no_features mode outcome =
    if is_disabled mode then committed nothing_to_do else commit_none mode outcome
