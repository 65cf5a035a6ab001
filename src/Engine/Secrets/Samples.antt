-- ===== src/Engine/Secrets/Samples.antt =====
-- A command that contributes two secrets, and the theorem about them applied.
use devcontainer.Base.{
  ℕ, pos, true, List, [], ◌∷◌, Option, none, some, Text, text, Map, lookup, or_else, ◌≡◌, refl,
}
use devcontainer.Config.Types.{Command, LifecycleCommand}
use devcontainer.Engine.Lifecycle.{Outcome, exited}
use devcontainer.Engine.Secrets.{
  contributed, run_secrets_command, collect_secrets_env, parse_secrets_kv,
}
use devcontainer.Engine.Secrets.Precedence.{collect_secrets_env_lem}

abbrev exec : Command → (dir : Text) → ℕ → Outcome × ℕ
exec c dir w = (exited (pos 0) (text "# keys\n TOKEN =a=b\nUSER=x\n") [], w)

abbrev command : LifecycleCommand
command = record { single = some (record { shell = text "vault"; exec = [] }); parallel = [] }

abbrev secrets : Map Text
secrets = (text "TOKEN", text "a=b") ∷ (text "USER", text "x") ∷ []

abbrev extra : Map Text
extra = (text "USER", text "me") ∷ []

collect_secrets_env_lem_example :
    (env : Map Text) × ((collect_secrets_env (some exec) [] true extra command 0).0
      ≡ contributed env)
    × ((k : Text) → lookup k env ≡ or_else (lookup k extra) (lookup k secrets))
unfolding run_secrets_command devcontainer.Base.contains devcontainer.Base.◌==◌
    devcontainer.Engine.Secrets.exec_secrets_host parse_secrets_kv
    devcontainer.Engine.Secrets.put_lines devcontainer.Engine.Secrets.split_lines
    devcontainer.Engine.Secrets.put_line devcontainer.Engine.Secrets.trim_left
    devcontainer.Engine.Secrets.trim_return devcontainer.Engine.Secrets.cut_equals
    devcontainer.Engine.Secrets.trim_right devcontainer.Base.insert
collect_secrets_env_lem_example =
    collect_secrets_env_lem (some exec) [] secrets extra command 0 (refl, (refl, tt)) (refl, tt)
      refl
