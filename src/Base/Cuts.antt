-- ===== src/Base/Cuts.antt =====
-- strings.Cut and strings.Split at one byte.
use Prim.Native.Nat.{ℕ}
use mathlib.Core.Path.{◌≡◌, refl}
use mathlib.Core.Bool.{Bool, true, false, not}
use mathlib.Core.Option.{Option, none, some}
use mathlib.Core.List.{List, [], ◌∷◌, ◌++◌}
use native.Mathlib.Omega.{arith}
use devcontainer.Base.Tests.{nat_beq, nat_beq_iff, if◌then◌else◌}
use devcontainer.Base.Lists.{any}
use devcontainer.Base.Texts.{Text}

abbrev pub cons_first : ℕ → Option (Text × Text) → Option (Text × Text)
cons_first c none = none
cons_first c (some (pre, post)) = some (c ∷ pre, post)

-- What stands before and behind the first `b`.
unfoldable pub cut : ℕ → Text → Option (Text × Text)
cut b [] = none
cut b (c ∷ s) = let rest = cut b s in if nat_beq c b then some ([], s) else cons_first c rest

-- A byte in front of the first piece.
abbrev pub cons_piece : ℕ → List Text → List Text
cons_piece c [] = (c ∷ []) ∷ []
cons_piece c (piece ∷ pieces) = (c ∷ piece) ∷ pieces

-- The pieces between the bytes `b`: one more than there are such bytes.
unfoldable pub split_at_byte : ℕ → Text → List Text
split_at_byte b [] = [] ∷ []
split_at_byte b (c ∷ s) =
    let rest = split_at_byte b s in if nat_beq c b then [] ∷ rest else cons_piece c rest

-- The byte does not stand in the string.
abbrev pub is_free_of : ℕ → Text → Bool
is_free_of b s = not (any (nat_beq b) s)

pub cut_found :
    (b : ℕ) (pre post : Text) → is_free_of b pre ≡ true → cut b (pre ++ b ∷ post) ≡ some (pre, post)
unfolding cut any
cut_found b [] post h = rw ((nat_beq_iff b b).1 refl) refl
cut_found b (c ∷ pre) post h =
    let other : nat_beq c b ≡ false = ground (arith, h) in
    rw (other, cut_found b pre post (ground (arith, h))) refl

pub split_at_byte_found :
    (b : ℕ) (piece rest : Text)
    → is_free_of b piece ≡ true
    → split_at_byte b (piece ++ b ∷ rest) ≡ piece ∷ split_at_byte b rest
unfolding split_at_byte any
split_at_byte_found b [] rest h = rw ((nat_beq_iff b b).1 refl) refl
split_at_byte_found b (c ∷ piece) rest h =
    let other : nat_beq c b ≡ false = ground (arith, h) in
    rw (other, split_at_byte_found b piece rest (ground (arith, h))) refl

pub split_at_byte_last :
    (b : ℕ) (piece : Text) → is_free_of b piece ≡ true → split_at_byte b piece ≡ piece ∷ []
unfolding split_at_byte any
split_at_byte_last b [] h = refl
split_at_byte_last b (c ∷ piece) h =
    let other : nat_beq c b ≡ false = ground (arith, h) in
    rw (other, split_at_byte_last b piece (ground (arith, h))) refl
