-- ===== src/Engine/Lock/Baked.antt =====
-- What is locked for a feature that the base image carries.
use devcontainer.Base.{
  Bool, true, false, [], Option, none, some, Text, ◌==◌, ◌≡◌, refl, ap, sym, ◌∙◌, arith,
}
use devcontainer.Config.Types.{ResolvedFeature, FeatureMetadata}
use devcontainer.Feature.Lockfile.{
  LockedFeature, FeatureIntegrityError, check_integrity, integrity_of,
}
use devcontainer.Feature.Lockfile.Pins.{integrity_of_checked, integrity-lock}
use devcontainer.Engine.Lock.{
  FeatureLock, is_disabled, is_upgrade, is_intact, fits_pin, pin, accepts_baked, keep_pin,
  entry_for,
}

intact_none : (e : Option FeatureIntegrityError) → is_intact e ≡ true → e ≡ none
intact_none none h = refl
intact_none (some e) h = absurd (cc h)

integrity-keep_pin :
    (installed : Bool) (pinned : Option LockedFeature) (f : ResolvedFeature) (baked_ref : Text)
    (e : LockedFeature)
    → installed ≡ true
    → f.resolved_ref ≡ baked_ref
    → fits_pin f baked_ref pinned ≡ true
    → keep_pin installed pinned f ≡ some e
    → e.integrity ≡ integrity_of f.source_kind baked_ref
integrity-keep_pin false pinned f baked_ref e on same fits h = absurd (cc on)
integrity-keep_pin true none f baked_ref e on same fits h =
    integrity-lock f e h ∙ ap (integrity_of f.source_kind) same
integrity-keep_pin true (some p) f baked_ref e on same fits h =
    let kept : p ≡ e = cc h in
    ap (λ x. x.integrity) (sym kept)
    ∙ sym (integrity_of_checked f baked_ref p (intact_none (check_integrity f baked_ref p) fits))

accepts_baked-fits_pin :
    (l : FeatureLock) (f : ResolvedFeature) (baked : FeatureMetadata)
    → is_disabled l.mode ≡ false
    → accepts_baked l f baked ≡ true
    → (is_upgrade l.mode ≡ false)
      × ((baked.resolved_ref == []) ≡ false)
      × (fits_pin f baked.resolved_ref (pin l f) ≡ true)
unfolding accepts_baked
accepts_baked-fits_pin l f baked on h = ground (arith, on, h)

-- Where the lockfile is in use and the base image's installation stands in for a feature, the image
-- says which artifact it has, and the entry that is locked for the feature holds that artifact's
-- digest, be it the pin or a new entry. In upgrade mode no installation stands in.
pub accepts_baked-integrity :
    (l : FeatureLock) (f : ResolvedFeature) (baked : FeatureMetadata) (e : LockedFeature)
    → is_disabled l.mode ≡ false
    → accepts_baked l f baked ≡ true
    → f.already_installed ≡ true
    → f.resolved_ref ≡ baked.resolved_ref
    → entry_for l f ≡ some e
    → (is_upgrade l.mode ≡ false)
      × ((baked.resolved_ref == []) ≡ false)
      × (e.integrity ≡ integrity_of f.source_kind baked.resolved_ref)
unfolding entry_for
accepts_baked-integrity l f baked e on accepted installed same h =
    let (kept, named, fits) = accepts_baked-fits_pin l f baked on accepted in
    (
      kept,
      named,
      integrity-keep_pin f.already_installed (pin l f) f baked.resolved_ref e installed same fits h,
    )
