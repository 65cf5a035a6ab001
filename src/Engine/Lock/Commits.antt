-- ===== src/Engine/Lock/Commits.antt =====
-- When a commit leaves the lockfile as it is.
use devcontainer.Base.{
  Bool, true, false, List, [], ◌∷◌, Option, none, some, Text, ◌==◌, eq_iff, eq_of_==, Map, keys,
  lookup, lookup-insert, lookup-keys, is_some, insert, contains, HasDistinctKeys, ◌≡◌, ◌≢◌, ◌↔◌,
  refl, inl, inr, ap, sym, ◌∙◌, arith, Bool-cases, if_ind, if◌then◌else◌,
}
use devcontainer.Config.Types.{ResolvedFeature}
use devcontainer.Feature.Lockfile.{LockedFeature, Lockfile, equal, changed}
use devcontainer.Feature.Lockfile.Changes.{equal_iff}
use devcontainer.Engine.Lock.{
  FeatureLock, is_disabled, is_frozen, entry_for, put_entry, collect_entries, next_lockfile,
  nothing_to_do, mismatch, write, commit,
}

insert-HasDistinctKeys :
    (ref : Text) (e : LockedFeature) (m : Map LockedFeature)
    → HasDistinctKeys m
    → HasDistinctKeys (insert ref e m)
unfolding insert contains
insert-HasDistinctKeys ref e [] h = (refl, tt)
insert-HasDistinctKeys ref e ((k, v) ∷ m) h =
    if_ind HasDistinctKeys (k == ref)
      (λ same. (ap (contains (keys m)) (sym (eq_of_== k ref same)) ∙ h.0, h.1))
      (λ other. (
        sym (lookup-keys k (insert ref e m))
            ∙ ap is_some (lookup-insert ref k e m)
            ∙ ground (arith, eq_iff ref k, eq_iff k ref, other, lookup-keys k m, h.0),
        insert-HasDistinctKeys ref e m h.1,
      ))

put_entry-HasDistinctKeys :
    (ref : Text) (e : Option LockedFeature) (m : Map LockedFeature)
    → HasDistinctKeys m
    → HasDistinctKeys (put_entry ref e m)
put_entry-HasDistinctKeys ref none m h = h
put_entry-HasDistinctKeys ref (some e) m h = insert-HasDistinctKeys ref e m h

collect_entries-HasDistinctKeys :
    (l : FeatureLock) (m : Map LockedFeature) (fs : List ResolvedFeature)
    → HasDistinctKeys m
    → HasDistinctKeys (collect_entries l m fs)
unfolding collect_entries
collect_entries-HasDistinctKeys l m [] h = h
collect_entries-HasDistinctKeys l m (f ∷ fs) h =
    collect_entries-HasDistinctKeys l (put_entry f.ref (entry_for l f) m) fs
      (put_entry-HasDistinctKeys f.ref (entry_for l f) m h)

speaks_up :
    (frozen : Bool) (ks : List Text) (next : Lockfile)
    → (if frozen then mismatch ks else write next) ≢ nothing_to_do
speaks_up true ks next h = absurd (cc h)
speaks_up false ks next h = absurd (cc h)

-- Where the lockfile is in use and there is one, a commit does nothing exactly when each key has the
-- same entry in it as in the lockfile that the features make up.
pub commit_iff :
    (l : FeatureLock) (old : Lockfile) (fs : List ResolvedFeature)
    → is_disabled l.mode ≡ false
    → l.existing ≡ some old
    → (commit l fs ≡ nothing_to_do)
      ↔ ((k : Text) → lookup k (collect_entries l [] fs) ≡ lookup k old.features)
unfolding commit
commit_iff l old fs on given =
    let next = next_lockfile l fs in
    let (to, from) = equal_iff next old (collect_entries-HasDistinctKeys l [] fs tt) in
    elim (Bool-cases (equal (some next) (some old))) [
      | inl same ↦
          let here : equal (some next) l.existing ≡ true = ap (equal (some next)) given ∙ same in
          (λ _. to same, λ _. rw (on, here) refl)
      | inr other ↦
          let here : equal (some next) l.existing ≡ false = ap (equal (some next)) given ∙ other in
          (
            λ h. absurd (
                speaks_up (is_frozen l.mode) (changed (some next) l.existing) next
                  (rw (on, here) at h)),
            λ h. absurd (cc (other, from h)),
          )
    ]
