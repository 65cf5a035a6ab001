-- ===== src/Feature/Options/Quotes.antt =====
-- What the shell reads back from the values and the names that are written for it.
use devcontainer.Base.{
  ℕ, Bool, true, false, ◌&&◌, ◌||◌, not, [], ◌∷◌, ◌++◌, Option, none, some, Text, nat_beq,
  nat_beq_iff, leb, all, map, append_assoc, ◌≡◌, refl, inl, inr, ap, sym, Bool-cases, arith,
  if◌then◌else◌,
}
use devcontainer.Feature.Options.{
  escape_quotes, shell_single_quote, is_digit, is_word, to_word, guard_digit, upper_byte,
  safe_env_key,
}

abbrev read_more : ℕ → Option (Text × Text) → Option (Text × Text)
read_more c none = none
read_more c (some (word, rest)) = some (c ∷ word, rest)

abbrev pub has_no_nul : ℕ → Bool
has_no_nul c = not (nat_beq c 0)

-- Letters, digits and `%+,-./:@_`.
abbrev pub is_inert : ℕ → Bool
is_inert c =
    is_word c || (nat_beq c 37 || ((leb 43 c && leb c 47) || (nat_beq c 58 || nat_beq c 64)))

-- How the shell reads a word up to the end of its line: a quote begins or ends a quoted part, and outside
-- of one a backslash stands before a literal byte, and any other byte must be one that means nothing
-- else to the shell. A NUL byte ends the input.
pub data Reading : Type 0 where
  plain quoted escaped : Reading

pub read_word : Reading → Text → Option (Text × Text)
read_word plain [] = some ([], [])
read_word plain (c ∷ s) =
    let in_quotes = read_word quoted s in
    let literal = read_word escaped s in
    let more = read_word plain s in
    if nat_beq c 39
    then in_quotes
    else if nat_beq c 92
    then literal
    else if nat_beq c 10
    then some ([], c ∷ s)
    else if is_inert c
    then read_more c more
    else none
read_word quoted [] = none
read_word quoted (c ∷ s) =
    let over = read_word plain s in
    let more = read_word quoted s in
    if nat_beq c 39 then over else if nat_beq c 0 then none else read_more c more
read_word escaped [] = none
read_word escaped (c ∷ s) =
    let more = read_word plain s in if nat_beq c 10 || nat_beq c 0 then none else read_more c more

read_word-escape_quotes :
    (s rest : Text)
    → all has_no_nul s ≡ true
    → read_word quoted (escape_quotes s ++ 39 ∷ (10 ∷ rest)) ≡ some (s, 10 ∷ rest)
unfolding read_word escape_quotes all
read_word-escape_quotes [] rest clean = refl
read_word-escape_quotes (c ∷ s) rest clean = elim (Bool-cases (nat_beq c 39)) [
  | inl quote ↦
      rw (quote, read_word-escape_quotes s rest (ground (arith, clean)))
        (ap (λ x. some (x ∷ s, 10 ∷ rest)) (sym ((nat_beq_iff c 39).0 quote)))
  | inr other ↦
      let printable : nat_beq c 0 ≡ false = ground (arith, clean) in
      rw other (
        rw other (
          rw printable (ap (read_more c) (read_word-escape_quotes s rest (ground (arith, clean))))))
]

-- The shell reads a quoted value back as it was, whatever bytes but NUL are in it, up to the end of its
-- line.
pub read_word-shell_single_quote :
    (s rest : Text)
    → all has_no_nul s ≡ true
    → read_word plain (shell_single_quote s ++ 10 ∷ rest) ≡ some (s, 10 ∷ rest)
unfolding shell_single_quote read_word
read_word-shell_single_quote s rest clean = rw (append_assoc) (read_word-escape_quotes s rest clean)

-- A byte that may stand in the name of a shell variable, in capitals.
abbrev pub is_name_byte : ℕ → Bool
is_name_byte c = is_digit c || (leb b'A' c && leb c b'Z') || nat_beq c b'_'

abbrev pub starts_with_digit : Text → Bool
starts_with_digit [] = false
starts_with_digit (c ∷ s) = is_digit c

all-to_word : (s : Text) → all is_word (to_word s) ≡ true
unfolding to_word all
all-to_word [] = refl
all-to_word (c ∷ s) = ground (arith, all-to_word s)

all-guard_digit : (s : Text) → all is_word s ≡ true → all is_word (guard_digit s) ≡ true
unfolding all
all-guard_digit [] h = refl
all-guard_digit (c ∷ s) h = ground (arith, h)

all-upper : (s : Text) → all is_word s ≡ true → all is_name_byte (map upper_byte s) ≡ true
unfolding all
all-upper [] h = refl
all-upper (c ∷ s) h = ground (arith, h, all-upper s)

guard_digit-starts : (s : Text) → starts_with_digit (map upper_byte (guard_digit s)) ≡ false
guard_digit-starts [] = refl
guard_digit-starts (c ∷ s) = ground arith

-- The name of an option is turned into the name of a shell variable: capitals, digits and underscores,
-- and no digit first.
safe_env_key_lem :
    (s : Text)
    → (all is_name_byte (safe_env_key s) ≡ true) × (starts_with_digit (safe_env_key s) ≡ false)
unfolding safe_env_key
safe_env_key_lem s = (
  all-upper (guard_digit (to_word s)) (all-guard_digit (to_word s) (all-to_word s)),
  guard_digit-starts (to_word s),
)
