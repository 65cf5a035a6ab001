-- ===== src/Feature/Match/Samples.antt =====
-- Requests and baked features, and the theorem about matching applied to them.
use Prim.Native.String.{String}
use devcontainer.Base.{none, some, text, ◌≡◌, refl}
use devcontainer.Config.Types.{FeatureMetadata}
use devcontainer.Config.Merge.Samples.{empty_layer}
use devcontainer.Feature.Match.{
  parse_semver, trim_v, cut_qualifier, split_dots, atoi_from, atoi, atoi_all, semver_of,
}

abbrev node : String → FeatureMetadata
node version = record empty_layer { id = text "node"; version = text version }

parse_semver-text :
    parse_semver (text "v1.20-rc.1") ≡ some (record { major = 1; minor = 20; patch = 0 })
unfolding parse_semver trim_v cut_qualifier split_dots atoi_from atoi atoi_all semver_of
parse_semver-text = refl

parse_semver_latest : parse_semver (text "latest") ≡ none
unfolding parse_semver trim_v cut_qualifier split_dots atoi_from atoi atoi_all semver_of
parse_semver_latest = refl
