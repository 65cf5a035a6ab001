-- ===== src/Config/Merge/Scalars.antt =====
-- The values that one layer can set: the user's wins, then the last layer's.
use devcontainer.Base.{
  [], ◌∷◌, Option, none, some, Text, ◌==◌, eq_iff, if◌then◌else◌, ◌≡◌, refl, inl, inr, arith,
  or_else, or_else-none, ap, sym, ◌∙◌, Bool-cases,
}
use devcontainer.Config.Types.{ResolvedConfig, FeatureMetadata}
use devcontainer.Config.Substitute.{SubstitutionContext}
use devcontainer.Config.Layers.{substitute_layers}
use devcontainer.Config.Merge.{
  merge_metadata, merge_layers, later, Layers, last_string, pick_string, last_set, pick_set,
}

-- The first of two texts that is not empty, and the value of the last layer that sets one.
abbrev pub or_text : Text → Text → Text
or_text a b = if a == [] then b else a

abbrev pub last_layer_text : (FeatureMetadata → Text) → Layers → Text
last_layer_text get [] = []
last_layer_text get (l ∷ layers) = or_text (last_layer_text get layers) (get l)

or_text_assoc : (a b c : Text) → or_text a (or_text b c) ≡ or_text (or_text a b) c
or_text_assoc a b c = elim (Bool-cases (a == [])) [ inl h ↦ rw h refl | inr h ↦ rw (h, h) refl ]

or_text_nil : (a : Text) → or_text a [] ≡ a
or_text_nil a = ground (arith, eq_iff a [])

last_string_lem :
    (out : Text) (layers : Layers) (get : FeatureMetadata → Text)
    → last_string out layers get ≡ or_text (last_layer_text get layers) out
unfolding last_string ◌==◌
last_string_lem out [] get = refl
last_string_lem out (l ∷ layers) get =
    last_string_lem (or_text (get l) out) layers get
    ∙ or_text_assoc (last_layer_text get layers) (get l) out

pub pick_string_lem :
    (user : Text) (layers : Layers) (get : FeatureMetadata → Text)
    → pick_string user layers get ≡ or_text user (last_layer_text get layers)
unfolding pick_string
pick_string_lem user layers get =
    ap (or_text user) (last_string_lem [] layers get ∙ or_text_nil (last_layer_text get layers))

-- The value of the last layer that sets one.
abbrev pub last_layer_set {ℓ} : {A : Type ℓ} → (FeatureMetadata → Option A) → Layers → Option A
last_layer_set get [] = none
last_layer_set get (l ∷ layers) = or_else (last_layer_set get layers) (get l)

module _ {ℓ} {A : Type ℓ} where
  last_set_lem :
      (out : Option A) (layers : Layers) (get : FeatureMetadata → Option A)
      → last_set out layers get ≡ or_else (last_layer_set get layers) out
  unfolding last_set
  last_set_lem out [] get = refl
  last_set_lem out (l ∷ layers) get = ground (arith, last_set_lem (later out (get l)) layers get)

  pub pick_set_lem :
      (user : Option A) (layers : Layers) (get : FeatureMetadata → Option A)
      → pick_set user layers get ≡ or_else user (last_layer_set get layers)
  unfolding pick_set
  pick_set_lem none layers get = ground (arith, last_set_lem none layers get)
  pick_set_lem (some v) layers get = refl

module _ (cfg : ResolvedConfig) (ctx : SubstitutionContext) where
  -- In the result of `MergeMetadata` the remote and container user, the environment probe,
  -- `waitFor` and the shutdown action are those of the user where the user set one, and else those
  -- of the last layer (its placeholders substituted) that sets one.
  merge_metadata-texts :
      (layers : Layers)
      → let out = merge_metadata cfg ctx layers in
        let last =
          λ (get : FeatureMetadata → Text). last_layer_text get (substitute_layers layers ctx) in
        (out.remote_user ≡ or_text cfg.remote_user (last (λ l. l.remote_user)))
        × (out.container_user ≡ or_text cfg.container_user (last (λ l. l.container_user)))
        × (out.user_env_probe ≡ or_text cfg.user_env_probe (last (λ l. l.user_env_probe)))
        × (out.wait_for ≡ or_text cfg.wait_for (last (λ l. l.wait_for)))
        × (out.shutdown_action ≡ or_text cfg.shutdown_action (last (λ l. l.shutdown_action)))
  unfolding merge_metadata merge_layers substitute_layers
  merge_metadata-texts [] = (
    sym (or_text_nil cfg.remote_user),
    sym (or_text_nil cfg.container_user),
    sym (or_text_nil cfg.user_env_probe),
    sym (or_text_nil cfg.wait_for),
    sym (or_text_nil cfg.shutdown_action),
  )
  merge_metadata-texts (l ∷ layers) =
      let ls = substitute_layers (l ∷ layers) ctx in
      (
        pick_string_lem cfg.remote_user ls (λ l. l.remote_user),
        pick_string_lem cfg.container_user ls (λ l. l.container_user),
        pick_string_lem cfg.user_env_probe ls (λ l. l.user_env_probe),
        pick_string_lem cfg.wait_for ls (λ l. l.wait_for),
        pick_string_lem cfg.shutdown_action ls (λ l. l.shutdown_action),
      )

  -- In the result of `MergeMetadata` `init`, `privileged`, `overrideCommand`,
  -- `updateRemoteUserUID` and the host requirements are those of the user where the user set them,
  -- and else those of the last layer that sets them.
  merge_metadata-options :
      (layers : Layers)
      → let out = merge_metadata cfg ctx layers in
        let ls = substitute_layers layers ctx in
        (out.init ≡ or_else cfg.init (last_layer_set (λ l. l.init) ls))
        × (out.privileged ≡ or_else cfg.privileged (last_layer_set (λ l. l.privileged) ls))
        × (out.override_command
            ≡ or_else cfg.override_command (last_layer_set (λ l. l.override_command) ls))
        × (out.update_remote_user_uid
            ≡ or_else cfg.update_remote_user_uid
                (last_layer_set (λ l. l.update_remote_user_uid) ls))
        × (out.host_requirements
            ≡ or_else cfg.host_requirements (last_layer_set (λ l. l.host_requirements) ls))
  unfolding merge_metadata merge_layers substitute_layers
  merge_metadata-options [] = (
    sym (or_else-none cfg.init),
    sym (or_else-none cfg.privileged),
    sym (or_else-none cfg.override_command),
    sym (or_else-none cfg.update_remote_user_uid),
    sym (or_else-none cfg.host_requirements),
  )
  merge_metadata-options (l ∷ layers) =
      let ls = substitute_layers (l ∷ layers) ctx in
      (
        pick_set_lem cfg.init ls (λ l. l.init),
        pick_set_lem cfg.privileged ls (λ l. l.privileged),
        pick_set_lem cfg.override_command ls (λ l. l.override_command),
        pick_set_lem cfg.update_remote_user_uid ls (λ l. l.update_remote_user_uid),
        pick_set_lem cfg.host_requirements ls (λ l. l.host_requirements),
      )
