-- ===== src/Feature/Options/Samples.antt =====
-- A feature's options, and the theorems about merging and quoting applied to them.
use devcontainer.Base.{
  Bool, true, false, [], ◌∷◌, ◌++◌, some, Text, text, Map, lookup, or_else, ◌≡◌, refl, ◌==◌,
  contains, all, none,
}
use devcontainer.Config.Types.{Json, bool, str, arr, nil, FeatureOption, FeatureMetadata}
use devcontainer.Config.Merge.Samples.{empty_layer}
use devcontainer.Feature.Options.{merge_options, shell_single_quote, any_equal}
use devcontainer.Feature.Options.Values.{
  unknown_names, default_of, is_merged, Gives, all_declared, allows, merge_options_lem,
}
use devcontainer.Feature.Options.Quotes.{plain, read_word, read_word-shell_single_quote}

abbrev sprint : Json → Text
sprint (str s) = s
sprint (bool true) = text "true"
sprint (bool false) = text "false"
sprint _ = []

abbrev same : Json → Json → Bool
same a b = sprint a == sprint b

abbrev version : FeatureOption
version = record {
  type = text "string";
  default = some (str (text "latest"));
  enum = str (text "latest") ∷ str (text "lts") ∷ [];
  proposals = [];
  description = [];
}

abbrev node : FeatureMetadata
node = record empty_layer { options = (text "version", version) ∷ [] }

abbrev user : Map Json
user = (text "version", str (text "lts")) ∷ (text "debug", bool true) ∷ []

merge_options_lem_example :
    (is_merged (merge_options sprint same node user)
      ≡ all_declared sprint same (allows sprint same) node.options user)
    × Gives
        (merge_options sprint same node user)
        (λ k. or_else (lookup k user) (default_of (lookup k node.options)))
        (unknown_names node.options user)
unfolding contains ◌==◌ lookup all
merge_options_lem_example =
    merge_options_lem sprint same node user (refl, tt) (refl, (refl, tt)) refl

two_arrays_panic : any_equal sprint same (arr nil) (arr nil) ≡ none
unfolding any_equal
two_arrays_panic = refl

read_word-shell_single_quote_example :
    read_word plain (shell_single_quote (text "it's") ++ 10 ∷ text "NEXT='1'")
    ≡ some (text "it's", 10 ∷ text "NEXT='1'")
unfolding all
read_word-shell_single_quote_example =
    read_word-shell_single_quote (text "it's") (text "NEXT='1'") refl
