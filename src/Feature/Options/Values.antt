-- ===== src/Feature/Options/Values.antt =====
-- What merging options gives, and when it fails.
use devcontainer.Base.{
  Bool, true, false, not, ◌&&◌, List, [], ◌∷◌, ◌++◌, ◌||◌, any, all, arith, is_empty, text, Option,
  none, some, Text, ◌==◌, eq_of_==, Map, keys, lookup, lookup-insert, lookup_absent, insert,
  contains, is_some, or_else, append_assoc, append-nil, HasDistinctKeys, ◌≡◌, refl, inl, inr, ap,
  sym, ◌∙◌, Bool-cases, if_ind, if◌then◌else◌,
}
use devcontainer.Config.Types.{Json, FeatureOption, FeatureMetadata}
use devcontainer.Feature.Options.{
  OptionError, Merged, merged, rejected, check, unknown_name, unless_rejected, overlay, put_default,
  put_defaults, merge_options, both_uncomparable, is_bool, is_string, find_in_enum, any_equal,
  validate_option_value, unless, expects_boolean, expects_string,
}

abbrev pub default_of : Option FeatureOption → Option Json
default_of none = none
default_of (some opt) = opt.default

-- The names of the user's options that are not declared, in order.
abbrev pub unknown_names : Map FeatureOption → Map Json → List Text
unknown_names options [] = []
unknown_names options ((name, val) ∷ user) =
    if is_some (lookup name options)
    then unknown_names options user
    else name ∷ unknown_names options user

lookup-put_default :
    (name : Text) (d : Option Json) (out : Map Json) (k : Text)
    → lookup k (put_default name d out)
      ≡ (if name == k then or_else d (lookup k out) else lookup k out)
lookup-put_default name none out k =
    if_ind (λ x. lookup k out ≡ x) (name == k) (λ _. refl) (λ _. refl)
lookup-put_default name (some d) out k = lookup-insert name k d out

or_else-none_right : (o : Option Json) → or_else o none ≡ o
or_else-none_right none = refl
or_else-none_right (some a) = refl

lookup-put_defaults :
    (out : Map Json) (options : Map FeatureOption) (k : Text)
    → HasDistinctKeys options
    → lookup k (put_defaults out options) ≡ or_else (default_of (lookup k options)) (lookup k out)
unfolding put_defaults lookup
lookup-put_defaults out [] k distinct = refl
lookup-put_defaults out ((name, opt) ∷ options) k distinct =
    let later = lookup-put_defaults (put_default name opt.default out) options k distinct.1 in
    let here = lookup-put_default name opt.default out k in
    elim (Bool-cases (name == k)) [
      | inl same ↦
          let gone =
            lookup_absent k options
              (ap (contains (keys options)) (sym (eq_of_== name k same)) ∙ distinct.0) in
          rw same (later ∙ rw (gone, here, same) refl)
      | inr other ↦
          rw other (later ∙ ap (or_else (default_of (lookup k options))) (rw other at here))
    ]

append_unknown :
    (unknown : List Text) (name : Text) (declared : Option FeatureOption) (names : List Text)
    → (unknown ++ unknown_name name declared) ++ names
      ≡ unknown ++ (if is_some declared then names else name ∷ names)
append_unknown unknown name none names = append_assoc unknown (name ∷ []) names
append_unknown unknown name (some decl) names = append_assoc unknown [] names

-- What merging gives where it gives something.
abbrev pub Gives : Merged → (Text → Option Json) → (unknown : List Text) → Type 0
Gives (merged out names) expected unknown =
    ((k : Text) → lookup k out ≡ expected k) × (names ≡ unknown)
Gives (rejected names e) expected unknown = Unit {0}

Gives-cong :
    (m : Merged) (e e' : Text → Option Json) (names names' : List Text)
    → ((k : Text) → e k ≡ e' k)
    → names ≡ names'
    → Gives m e names
    → Gives m e' names'
Gives-cong (merged out found) e e' names names' h g gives = (λ k. gives.0 k ∙ h k, gives.1 ∙ g)
Gives-cong (rejected found x) e e' names names' h g gives = tt

Gives-unless_rejected :
    (o : Option OptionError) (before : List Text) (m : Merged) (e : Text → Option Json)
    (names : List Text)
    → Gives m e names
    → Gives (unless_rejected o before m) e names
Gives-unless_rejected none before m e names gives = gives
Gives-unless_rejected (some x) before m e names gives = tt

-- A user's value comes before what was there.
lookup-overlaid :
    (name : Text) (val : Json) (user out : Map Json) (k : Text)
    → contains (keys user) name ≡ false
    → or_else (lookup k user) (lookup k (insert name val out))
      ≡ or_else (lookup k ((name, val) ∷ user)) (lookup k out)
unfolding lookup
lookup-overlaid name val user out k new = elim (Bool-cases (name == k)) [
  | inl same ↦
      let gone =
        lookup_absent k user (ap (contains (keys user)) (sym (eq_of_== name k same)) ∙ new) in
      rw (lookup-insert name k val out, same, gone) refl
  | inr other ↦ rw (lookup-insert name k val out, other) refl
]

abbrev pub is_merged : Merged → Bool
is_merged (merged out names) = true
is_merged (rejected names e) = false

is_merged-unless_rejected :
    (o : Option OptionError) (before : List Text) (m : Merged)
    → is_merged (unless_rejected o before m) ≡ not (is_some o) && is_merged m
is_merged-unless_rejected none before m = refl
is_merged-unless_rejected (some x) before m = refl

module _ (sprint : Json → Text) (same : Json → Json → Bool) where
  overlay-Gives :
      (options : Map FeatureOption) (out : Map Json) (names : List Text) (user : Map Json)
      → HasDistinctKeys user
      → Gives
          (overlay sprint same options out names user)
          (λ k. or_else (lookup k user) (lookup k out))
          (names ++ unknown_names options user)
  unfolding overlay lookup
  overlay-Gives options out names [] distinct = (λ k. refl, sym (append-nil names))
  overlay-Gives options out names ((name, val) ∷ user) distinct =
      let declared = lookup name options in
      let names' = names ++ unknown_name name declared in
      Gives-unless_rejected (check sprint same name declared val) names
        (overlay sprint same options (insert name val out) names' user)
        (λ k. or_else (lookup k ((name, val) ∷ user)) (lookup k out))
        (names ++ unknown_names options ((name, val) ∷ user))
        (Gives-cong (overlay sprint same options (insert name val out) names' user)
          (λ k. or_else (lookup k user) (lookup k (insert name val out)))
          (λ k. or_else (lookup k ((name, val) ∷ user)) (lookup k out))
          (names' ++ unknown_names options user)
          (names ++ unknown_names options ((name, val) ∷ user))
          (λ k. lookup-overlaid name val user out k distinct.0)
          (append_unknown names name declared (unknown_names options user))
          (overlay-Gives options (insert name val out) names' user distinct.1))

  -- Equal as values or as printed.
  abbrev pub looks_equal : Json → Json → Bool
  looks_equal a b = same a b || (sprint a == sprint b)

  -- A boolean option takes a boolean, and one of type string or of none a string.
  abbrev pub has_type : (type : Text) → Json → Bool
  has_type type val =
      if type == text "boolean"
      then is_bool val
      else not ((type == text "string") || (type == [])) || is_string val

  -- An option with an enum allows what looks like a member, and any other what has its type.
  abbrev pub allows : FeatureOption → Json → Bool
  allows opt val =
      if is_empty opt.enum
      then has_type opt.type val
      else any (λ allowed. looks_equal allowed val) opt.enum

  -- No array is compared with an array, and no object with an object.
  abbrev pub is_comparable : FeatureOption → Json → Bool
  is_comparable opt val = all (λ allowed. not (both_uncomparable allowed val)) opt.enum

  -- Does the test hold for the value of each declared option?
  abbrev pub all_declared : (FeatureOption → Json → Bool) → Map FeatureOption → Map Json → Bool
  all_declared test options user =
      all (λ e. elim (lookup e.0 options) [ none ↦ true | some opt ↦ test opt e.1 ]) user

  find_in_enum-none :
      (name : Text) (enum : List Json) (val : Json)
      → all (λ allowed. not (both_uncomparable allowed val)) enum ≡ true
      → is_some (find_in_enum sprint same name enum val)
        ≡ not (any (λ allowed. looks_equal allowed val) enum)
  unfolding find_in_enum any_equal any all
  find_in_enum-none name [] val comparable = refl
  find_in_enum-none name (a ∷ enum) val comparable =
      let later = find_in_enum-none name enum val (ground (arith, comparable)) in
      elim (Bool-cases (both_uncomparable a val)) [
        | inl bad ↦ ground (arith, comparable, bad)
        | inr good ↦ rw good (ground (arith, later))
      ]

  is_some-unless : (b : Bool) (e : OptionError) → is_some (unless b e) ≡ not b
  is_some-unless true e = refl
  is_some-unless false e = refl

  validate_option_value-allows :
      (name : Text) (opt : FeatureOption) (val : Json)
      → is_comparable opt val ≡ true
      → is_some (validate_option_value sprint same name opt val) ≡ not (allows opt val)
  unfolding validate_option_value
  validate_option_value-allows name opt val comparable = elim (Bool-cases (is_empty opt.enum)) [
    | inl without ↦ rw without (
        ground (
          arith,
          is_some-unless (is_bool val) (expects_boolean name),
          is_some-unless (is_string val) (expects_string name),
        ))
    | inr with_enum ↦ rw with_enum (find_in_enum-none name opt.enum val comparable)
  ]

  -- The checks of the code pass.
  abbrev are_allowed : Map FeatureOption → Map Json → Bool
  are_allowed options [] = true
  are_allowed options ((name, val) ∷ user) =
      not (is_some (check sprint same name (lookup name options) val)) && are_allowed options user

  check-allows :
      (name : Text) (declared : Option FeatureOption) (val : Json)
      → (elim declared [ none ↦ true | some opt ↦ is_comparable opt val ]) ≡ true
      → not (is_some (check sprint same name declared val))
        ≡ (elim declared [ none ↦ true | some opt ↦ allows opt val ])
  check-allows name none val comparable = refl
  check-allows name (some opt) val comparable =
      ground (arith, validate_option_value-allows name opt val comparable)

  are_allowed-all_declared :
      (options : Map FeatureOption) (user : Map Json)
      → all_declared is_comparable options user ≡ true
      → are_allowed options user ≡ all_declared allows options user
  unfolding all
  are_allowed-all_declared options [] comparable = refl
  are_allowed-all_declared options ((name, val) ∷ user) comparable = ground (
    arith,
    check-allows name (lookup name options) val,
    are_allowed-all_declared options user,
    comparable,
  )

  is_merged-overlay :
      (options : Map FeatureOption) (out : Map Json) (names : List Text) (user : Map Json)
      → is_merged (overlay sprint same options out names user) ≡ are_allowed options user
  unfolding overlay
  is_merged-overlay options out names [] = refl
  is_merged-overlay options out names ((name, val) ∷ user) =
      let declared = lookup name options in
      let names' = names ++ unknown_name name declared in
      is_merged-unless_rejected (check sprint same name declared val) names
        (overlay sprint same options (insert name val out) names' user)
      ∙ ap (λ b. not (is_some (check sprint same name declared val)) && b)
          (is_merged-overlay options (insert name val out) names' user)

-- Where merging compares no two arrays and no two objects, it gives options exactly when each of the
-- user's values for a declared option is one that the option allows: a member of its enum, as a value or
-- as printed, or a value of its type where it has no enum. The options given then are the user's values
-- and else the declared defaults, and the names reported are those of the user's options that are not
-- declared. The given maps have distinct keys.
pub merge_options_lem :
    (sprint : Json → Text) (same : Json → Json → Bool) (meta : FeatureMetadata) (user : Map Json)
    → HasDistinctKeys meta.options
    → HasDistinctKeys user
    → all_declared sprint same (is_comparable sprint same) meta.options user ≡ true
    → (is_merged (merge_options sprint same meta user)
        ≡ all_declared sprint same (allows sprint same) meta.options user)
      × Gives
          (merge_options sprint same meta user)
          (λ k. or_else (lookup k user) (default_of (lookup k meta.options)))
          (unknown_names meta.options user)
unfolding merge_options lookup
merge_options_lem sprint same meta user declared given comparable =
    let options = meta.options in
    let start = put_defaults [] options in
    let m = overlay sprint same options start [] user in
    (
      is_merged-overlay sprint same options start [] user
          ∙ are_allowed-all_declared sprint same options user comparable,
      Gives-cong m (λ k. or_else (lookup k user) (lookup k start))
          (λ k. or_else (lookup k user) (default_of (lookup k options)))
          (unknown_names options user) (unknown_names options user)
          (λ k. ap (or_else (lookup k user)) (
            lookup-put_defaults [] options k declared
            ∙ or_else-none_right (default_of (lookup k options))))
          refl (overlay-Gives sprint same options start [] user given),
    )
