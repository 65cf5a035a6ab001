-- ===== src/Feature/Label/Commands.antt =====
-- Commands written to a label are read back.
use devcontainer.Base.{
  Bool, true, false, ◌||◌, List, [], ◌∷◌, ◌++◌, map, Option, none, some, Text, ◌==◌, eq_iff,
  contains, Map, keys, insert, HasDistinctKeys, is_empty, text_ltb, insert_by, sort_from, sort_by,
  if_ind, ◌≡◌, refl, ap, ◌∙◌, arith, Bool-cases, inl, inr, ◌⊎◌, append_assoc, append-nil,
}
use devcontainer.Config.Types.{Json, Command, LifecycleCommand}
use devcontainer.Config.Decode.Values.{decoded, strings_of, add_fields}
use devcontainer.Config.Decode.Commands.{
  decode_command_value, decode_named, decode_lifecycle_command,
}
use devcontainer.Feature.Label.{
  strings, command_json, command_fields, by_name, encode_parallel, encode_lifecycle_command,
}

strings_of-strings : (ss : List Text) → strings_of (strings ss) ≡ some ss
unfolding strings_of strings
strings_of-strings [] = refl
strings_of-strings (s ∷ ss) = rw (strings_of-strings ss) refl

-- Exactly one of the two forms is used.
abbrev pub IsOneForm : Command → Type 0
IsOneForm c =
    ((c.shell ≡ []) × (is_empty c.exec ≡ false)) ⊎ (((c.shell == []) ≡ false) × (c.exec ≡ []))

decode_command_value-command_json :
    (c : Command) → IsOneForm c → decode_command_value (command_json c) ≡ some c
unfolding decode_command_value ◌==◌
decode_command_value-command_json c (inl (no_shell, has_exec)) =
    ground (arith, no_shell, strings_of-strings c.exec)
decode_command_value-command_json c (inr (has_shell, no_exec)) = ground (arith, has_shell, no_exec)

abbrev pub AreOneForm : Map Command → Type 0
AreOneForm [] = Unit {0}
AreOneForm ((name, c) ∷ m) = IsOneForm c × AreOneForm m

abbrev jsons : Map Command → Map Json
jsons m = map (λ e. (e.0, command_json e.1)) m

decode_named-jsons : (m : Map Command) → AreOneForm m → decode_named (jsons m) ≡ decoded m
unfolding decode_named
decode_named-jsons [] h = refl
decode_named-jsons ((name, c) ∷ m) h =
    rw (decode_command_value-command_json c h.0, decode_named-jsons m h.1) refl

module _ {ℓ} {V : Type ℓ} where
  insert-absent :
      (k : Text) (v : V) (m : Map V) → contains (keys m) k ≡ false → insert k v m ≡ m ++ (k, v) ∷ []
  unfolding insert contains
  insert-absent k v [] h = refl
  insert-absent k v (entry ∷ m) h = elim (Bool-cases (entry.0 == k)) [
    | inl same ↦ absurd (ground (arith, same, h))
    | inr other ↦ rw other (ap (λ r. entry ∷ r) (insert-absent k v m (ground (arith, other, h))))
  ]

  contains-keys-snoc :
      (m : Map V) (k : Text) (v : V) (x : Text)
      → contains (keys (m ++ (k, v) ∷ [])) x ≡ contains (keys m) x || (k == x)
  unfolding contains
  contains-keys-snoc [] k v x = ground arith
  contains-keys-snoc (e ∷ m) k v x = ground (arith, contains-keys-snoc m k v x)

-- Fields with names of their own become the entries of the map.
add_fields-command_fields :
    (m : Map Json) (l : Map Command)
    → HasDistinctKeys l
    → ((x : Text) → contains (keys l) x ≡ true → contains (keys m) x ≡ false)
    → add_fields m (command_fields l) ≡ m ++ jsons l
unfolding add_fields command_fields contains
add_fields-command_fields m [] d apart = rw append-nil
add_fields-command_fields m ((k, c) ∷ l) d apart =
    let absent : contains (keys m) k ≡ false = apart k (ground (arith, eq_iff k k)) in
    ap (λ into. add_fields into (command_fields l)) (insert-absent k (command_json c) m absent)
    ∙ (add_fields-command_fields (m ++ (k, command_json c) ∷ []) l d.1 (λ x listed. ground (
      arith,
      listed,
      contains-keys-snoc m k (command_json c) x,
      apart x,
      d.0,
      eq_iff k x,
      ap (λ y. contains (keys l) y) {x = k} {y = x},
    ))
        ∙ append_assoc m ((k, command_json c) ∷ []) (jsons l))

-- Sorting by name.
abbrev key_less : Text × Command → Text × Command → Bool
key_less a b = text_ltb a.0 b.0

contains-insert :
    (e : Text × Command) (m : Map Command) (x : Text)
    → contains (keys (insert_by key_less e m)) x ≡ (e.0 == x) || contains (keys m) x
unfolding insert_by contains
contains-insert e [] x = refl
contains-insert e (f ∷ m) x = ground (arith, contains-insert e m x)

abbrev IsFine : Map Command → Type 0
IsFine m = HasDistinctKeys m × AreOneForm m

insert-IsFine :
    (k : Text) (c : Command) (m : Map Command)
    → contains (keys m) k ≡ false
    → IsOneForm c
    → IsFine m
    → IsFine (insert_by key_less (k, c) m)
unfolding insert_by contains
insert-IsFine k c [] new one h = ((refl, tt), (one, tt))
insert-IsFine k c ((j, d) ∷ m) new one h =
    let rest = insert-IsFine k c m (ground (arith, new)) one (h.0.1, h.1.1) in
    if_ind IsFine (text_ltb k j) (λ _. ((new, h.0), (one, h.1)))
      (λ _. (
        (ground (arith, contains-insert (k, c) m j, h.0.0, new, eq_iff j k, eq_iff k j), rest.0),
        (h.1.0, rest.1),
      ))

sort_from-IsFine :
    (done m : Map Command)
    → IsFine done
    → IsFine m
    → ((x : Text) → contains (keys m) x ≡ true → contains (keys done) x ≡ false)
    → IsFine (sort_from key_less done m)
unfolding sort_from contains
sort_from-IsFine done [] h k apart = h
sort_from-IsFine done ((n, c) ∷ m) h k apart =
    sort_from-IsFine (insert_by key_less (n, c) done) m
      (insert-IsFine n c done (apart n (ground (arith, eq_iff n n))) k.1.0 h) (k.0.1, k.1.1)
      (λ x listed. ground (
        arith,
        listed,
        contains-insert (n, c) done x,
        apart x,
        k.0.0,
        eq_iff n x,
        ap (λ y. contains (keys m) y) {x = n} {y = x},
      ))

by_name-IsFine : (m : Map Command) → IsFine m → IsFine (by_name m)
unfolding by_name sort_by contains
by_name-IsFine m h = sort_from-IsFine [] m (tt, tt) h (λ x listed. refl)

-- A single command in one form, or named ones with different names.
abbrev pub IsPlain : Option Command → Map Command → Type 0
IsPlain (some c) parallel = IsOneForm c × (parallel ≡ [])
IsPlain none parallel = HasDistinctKeys parallel × AreOneForm parallel

pub in_order : LifecycleCommand → LifecycleCommand
in_order c = record c { parallel = by_name c.parallel }

abbrev parts : Option Command → Map Command → LifecycleCommand
parts single parallel = record { single = single; parallel = parallel }

decode-encode_parallel :
    (m : Map Command)
    → IsFine m
    → decode_lifecycle_command (encode_parallel m) ≡ decoded (parts none (by_name m))
unfolding decode_lifecycle_command by_name sort_by contains
decode-encode_parallel [] h = refl
decode-encode_parallel (e ∷ m) h =
    let fine = by_name-IsFine (e ∷ m) h in
    rw (
      add_fields-command_fields [] (by_name (e ∷ m)) fine.0 (λ x listed. refl),
      decode_named-jsons (by_name (e ∷ m)) fine.1,
    )

decode-encode_single :
    (shell : Text) (exec : List Text)
    → IsOneForm (record { shell = shell; exec = exec })
    → decode_lifecycle_command
        (encode_lifecycle_command (parts (some (record { shell = shell; exec = exec })) []))
      ≡ decoded (parts (some (record { shell = shell; exec = exec })) [])
unfolding encode_lifecycle_command decode_lifecycle_command ◌==◌ strings_of strings
decode-encode_single [] [] (inl (no_shell, has_exec)) = cc
decode-encode_single [] [] (inr (has_shell, no_exec)) = cc
decode-encode_single [] (arg ∷ args) h = rw (strings_of-strings args) refl
decode-encode_single (x ∷ shell) [] h = refl
decode-encode_single (x ∷ shell) (arg ∷ args) (inl (no_shell, has_exec)) = cc
decode-encode_single (x ∷ shell) (arg ∷ args) (inr (has_shell, no_exec)) = cc

decode-encode_parts :
    (single : Option Command) (parallel : Map Command)
    → IsPlain single parallel
    → decode_lifecycle_command (encode_lifecycle_command (parts single parallel))
      ≡ decoded (parts single (by_name parallel))
unfolding encode_lifecycle_command by_name sort_by
decode-encode_parts none parallel h = decode-encode_parallel parallel h
decode-encode_parts (some c) [] h = decode-encode_single c.shell c.exec h.0
decode-encode_parts (some c) (e ∷ parallel) h = cc (h.1)

-- A command is read back with its named commands in the order of their names.
pub decode_lifecycle_command-encode :
    (c : LifecycleCommand)
    → IsPlain c.single c.parallel
    → decode_lifecycle_command (encode_lifecycle_command c) ≡ decoded (in_order c)
unfolding in_order
decode_lifecycle_command-encode c h = decode-encode_parts c.single c.parallel h
