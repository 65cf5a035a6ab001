-- ===== src/Config/Substitute/Samples.antt =====
-- Small strings, what the substitution does on them, and the theorems applied to them.
use devcontainer.Base.{[], ◌∷◌, ◌++◌, none, text, lookup, contains, filter, ◌==◌, ◌≡◌, refl}
use devcontainer.Config.Substitute.{
  SubstitutionContext, resolve_string, lookup_variable, lookup_env_with_default, placeholder,
  replace_piece, replace_pieces, pieces_from, next_mode, out_of, rest_of, split_colon, base_name,
  drop_slashes, until_slash, var, add_warning, warn,
}
use devcontainer.Config.Substitute.Pieces.{resolve_string-placeholder}

abbrev pub empty_context : SubstitutionContext
empty_context = record {
  local_workspace_folder = [];
  container_workspace_folder = [];
  devcontainer_id = [];
  local_env = [];
  container_env = none;
}

abbrev pub context : SubstitutionContext
context = record empty_context {
  local_workspace_folder = text "/home/me/app/";
  devcontainer_id = text "abc";
  local_env = (text "HOME", text "/home/me") ∷ [];
}

program : Unit {0}
unfolding resolve_string replace_pieces replace_piece pieces_from next_mode out_of rest_of
    split_colon base_name drop_slashes until_slash lookup_variable lookup_env_with_default warn
    lookup contains filter ◌==◌
program = tt

resolve_string_folder :
    (resolve_string (text "$a ${localWorkspaceFolderBasename}-${localEnv:HOME} ${} ${x") context).0
    ≡ text "$a app-/home/me ${} ${x"
unfolding program
resolve_string_folder = refl

-- A zero context does not leave ${localEnv:HOME} as it is.
resolve_string_zero : (resolve_string (text "${localEnv:HOME}") empty_context).0 ≡ []
unfolding program
resolve_string_zero = refl

resolve_string_default :
    resolve_string (text "${localEnv:PORT:80}${containerEnv:PORT}") context
    ≡ (text "80${containerEnv:PORT}", [])
unfolding program
resolve_string_default = refl

resolve_string-placeholder_example :
    resolve_string (text "id-" ++ (placeholder (text "devcontainerId") ++ text "-${x}")) context ≡ (
      text "id-"
          ++ ((replace_piece context (var (text "devcontainerId"))).0
              ++ (resolve_string (text "-${x}") context).0),
      add_warning
          (replace_piece context (var (text "devcontainerId"))).1
          (resolve_string (text "-${x}") context).1,
    )
resolve_string-placeholder_example =
    resolve_string-placeholder context (text "id-") (text "devcontainerId") (text "-${x}") refl refl
      (λ e. cc e)
