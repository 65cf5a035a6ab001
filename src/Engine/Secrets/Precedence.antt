-- ===== src/Engine/Secrets/Precedence.antt =====
-- Which value a variable gets.
use devcontainer.Base.{
  true, [], ◌∷◌, Option, Text, Map, lookup, or_else, or_else-none, is_empty, HasDistinctKeys, ◌≡◌,
  refl, ap, sym, ◌∙◌, if_ind, if◌then◌else◌,
}
use devcontainer.Config.Types.{Command, LifecycleCommand}
use devcontainer.Config.Merge.{put_all}
use devcontainer.Config.Merge.Envs.{lookup-put_all}
use devcontainer.Engine.Lifecycle.{Outcome}
use devcontainer.Engine.Secrets.{
  Secrets, contributed, no_secrets, run_secrets_command, under_caller, collect_secrets_env,
}

empty_is : (m : Map Text) → is_empty m ≡ true → m ≡ []
empty_is [] h = refl
empty_is (x ∷ m) h = absurd (cc h)

overlaid : (secrets extra : Map Text) → Map Text
overlaid secrets extra =
    if is_empty secrets
    then extra
    else if is_empty extra
    then secrets
    else put_all (put_all [] secrets) extra

lookup-overlaid :
    (secrets extra : Map Text) (k : Text)
    → HasDistinctKeys secrets
    → HasDistinctKeys extra
    → lookup k (overlaid secrets extra) ≡ or_else (lookup k extra) (lookup k secrets)
unfolding overlaid lookup
lookup-overlaid secrets extra k d e =
    if_ind (λ m. lookup k m ≡ or_else (lookup k extra) (lookup k secrets)) (is_empty secrets)
      (λ h.
        sym (or_else-none (lookup k extra))
        ∙ ap (λ m. or_else (lookup k extra) (lookup k m)) (sym (empty_is secrets h)))
      (λ _.
        if_ind (λ m. lookup k m ≡ or_else (lookup k extra) (lookup k secrets)) (is_empty extra)
          (λ h. ap (λ m. or_else (lookup k m) (lookup k secrets)) (sym (empty_is extra h)))
          (λ _.
            lookup-put_all k (put_all [] secrets) extra e
            ∙ ap (or_else (lookup k extra))
                (lookup-put_all k [] secrets d ∙ or_else-none (lookup k secrets))))

under_caller-overlaid :
    {S : Type 0} (ran : Secrets × S) (secrets extra : Map Text)
    → ran.0 ≡ contributed secrets
    → (under_caller extra ran).0 ≡ contributed (overlaid secrets extra)
unfolding overlaid
under_caller-overlaid (no_secrets e, w) secrets extra h = absurd (cc h)
under_caller-overlaid (contributed found, w) secrets extra h =
    let same : found ≡ secrets = cc h in ap (λ m. contributed (overlaid m extra)) same

-- Where the command is asked for and contributes secrets, a variable has the value that the caller gave
-- it, and else the one of the secrets, and is unset where neither sets it; the given maps have distinct
-- keys.
pub collect_secrets_env_lem :
    {S : Type 0} (exec_host : Option (Command → (dir : Text) → S → Outcome × S)) (dir : Text)
    (secrets extra : Map Text) (command : LifecycleCommand) (w : S)
    → HasDistinctKeys secrets
    → HasDistinctKeys extra
    → (run_secrets_command exec_host dir command w).0 ≡ contributed secrets
    → (env : Map Text) × ((collect_secrets_env exec_host dir true extra command w).0
        ≡ contributed env)
      × ((k : Text) → lookup k env ≡ or_else (lookup k extra) (lookup k secrets))
unfolding collect_secrets_env
collect_secrets_env_lem exec_host dir secrets extra command w d e ran = (
  overlaid secrets extra,
  under_caller-overlaid (run_secrets_command exec_host dir command w) secrets extra ran,
  λ k. lookup-overlaid secrets extra k d e,
)
