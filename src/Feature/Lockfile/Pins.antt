-- ===== src/Feature/Lockfile/Pins.antt =====
-- What is fetched under a pin is what the lockfile holds.
use devcontainer.Base.{
  true, ◌∷◌, ◌++◌, Option, none, some, Text, ◌==◌, ==_refl, eq_of_==, ◌≡◌, refl, ap, sym, ◌∙◌, inl,
  inr, Option-cases, Bool-cases,
}
use devcontainer.Config.Types.{ResolvedFeature, FeatureSourceKind, oci, https, local_dir}
use devcontainer.Feature.Order.Ids.{lacks, cut_last_found}
use devcontainer.Feature.Lockfile.{
  LockedFeature, to_lower, integrity_of, locked, lock_as, lock, pinned_as, pinned_ref,
  check_integrity,
}

-- The check passes exactly when the artifact is the locked one.
pub check_integrity_of :
    (f : ResolvedFeature) (fetched_ref : Text) (e : LockedFeature)
    → integrity_of f.source_kind fetched_ref ≡ e.integrity
    → check_integrity f fetched_ref e ≡ none
unfolding check_integrity
check_integrity_of f fetched_ref e h =
    let same : (integrity_of f.source_kind fetched_ref == e.integrity) ≡ true =
      ap (λ x. x == e.integrity) h ∙ ==_refl e.integrity in
    rw same refl

pub integrity_of_checked :
    (f : ResolvedFeature) (fetched_ref : Text) (e : LockedFeature)
    → check_integrity f fetched_ref e ≡ none
    → integrity_of f.source_kind fetched_ref ≡ e.integrity
unfolding check_integrity
integrity_of_checked f fetched_ref e h =
    elim (Bool-cases (integrity_of f.source_kind fetched_ref == e.integrity)) [
      | inl same ↦ eq_of_== (integrity_of f.source_kind fetched_ref) e.integrity same
      | inr other ↦ absurd (cc (rw other at h))
    ]

integrity_of_pin :
    (repo digest : Text)
    → lacks b'@' digest ≡ true
    → integrity_of oci (repo ++ b'@' ∷ digest) ≡ digest
unfolding integrity_of
integrity_of_pin repo digest plain = rw (cut_last_found b'@' repo digest plain, integrity_of) refl

integrity_of-pinned_as :
    (repository : Text → Option Text) (ref : Text) (e : LockedFeature) (pinned : Text)
    (kind : FeatureSourceKind)
    → kind ≡ oci
    → lacks b'@' e.integrity ≡ true
    → pinned_as repository kind ref e ≡ some pinned
    → integrity_of kind pinned ≡ e.integrity
unfolding pinned_as
integrity_of-pinned_as repository ref e pinned https k plain h = absurd (cc k)
integrity_of-pinned_as repository ref e pinned local_dir k plain h = absurd (cc k)
integrity_of-pinned_as repository ref e pinned oci k plain h =
    elim (Option-cases (repository (to_lower ref))) [
      | inl unparsed ↦ absurd (cc (rw (unparsed, pinned_as) at h))
      | inr (repo, parsed) ↦
          let same : repo ++ b'@' ∷ e.integrity ≡ pinned = cc (rw (parsed, pinned_as) at h) in
          ap (integrity_of oci) (sym same) ∙ integrity_of_pin repo e.integrity plain
    ]

integrity-lock_as :
    (kind : FeatureSourceKind) (f : ResolvedFeature) (e : LockedFeature)
    → lock_as kind f ≡ some e
    → e.integrity ≡ integrity_of f.source_kind f.resolved_ref
unfolding lock_as locked
integrity-lock_as oci f e h =
    let same : locked f f.resolved_ref ≡ e = cc h in ap (λ x. x.integrity) (sym same)
integrity-lock_as https f e h =
    let same : locked f f.ref ≡ e = cc h in ap (λ x. x.integrity) (sym same)
integrity-lock_as local_dir f e h = absurd (cc h)

-- The entry of a feature holds the digest of the artifact that it resolved to.
pub integrity-lock :
    (f : ResolvedFeature) (e : LockedFeature)
    → lock f ≡ some e
    → e.integrity ≡ integrity_of f.source_kind f.resolved_ref
unfolding lock
integrity-lock f e h = integrity-lock_as f.source_kind f e h

-- An OCI feature that is fetched at the reference that its entry pins passes the check against that
-- entry, if the entry's digest has no `@`.
pub check_integrity-pinned_ref :
    (repository : Text → Option Text) (f : ResolvedFeature) (e : LockedFeature) (pinned : Text)
    → f.source_kind ≡ oci
    → lacks b'@' e.integrity ≡ true
    → pinned_ref repository f e ≡ some pinned
    → check_integrity f pinned e ≡ none
unfolding pinned_ref
check_integrity-pinned_ref repository f e pinned k plain h =
    check_integrity_of f pinned e
      (integrity_of-pinned_as repository f.ref e pinned f.source_kind k plain h)
