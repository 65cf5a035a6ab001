-- ===== src/Config/Substitute/Pieces.antt =====
-- What the scan for placeholders finds, and what is put in their place.
use devcontainer.Base.{
  ℕ, Bool, true, false, not, ◌&&◌, List, [], ◌∷◌, ◌++◌, Text, text, nat_beq, is_empty,
  if◌then◌else◌, ◌≡◌, refl, ap, sym, ◌∙◌, ◌≢◌, inl, inr, Bool-cases, arith, append_assoc,
  append-nil, nat_beq_iff,
}
use devcontainer.Config.Substitute.{
  SubstitutionContext, Piece, lit, var, Mode, plain, dollar, inside, plain_mode, plain_out,
  next_mode, out_of, rest_of, pieces_from, placeholder, replace_piece, add_warning, replace_pieces,
  resolve_string,
}

-- The text that a piece was read from.
abbrev pub piece_text : Piece → Text
piece_text (lit t) = t
piece_text (var inner) = placeholder inner

abbrev pub pieces_text : List Piece → Text
pieces_text [] = []
pieces_text (p ∷ ps) = piece_text p ++ pieces_text ps

-- The bytes that the scan holds back in a mode.
abbrev held : Mode → Text
held plain = []
held dollar = text "$"
held (inside seen) = text "${" ++ seen

pieces_text-append :
    (ps qs : List Piece) → pieces_text (ps ++ qs) ≡ pieces_text ps ++ pieces_text qs
pieces_text-append [] qs = refl
pieces_text-append (p ∷ ps) qs =
    rw (pieces_text-append ps qs)
      (sym (append_assoc (piece_text p) (pieces_text ps) (pieces_text qs)))

plain_text : (c : ℕ) → pieces_text (plain_out c) ++ held (plain_mode c) ≡ c ∷ []
plain_text c = ground arith

inside_text :
    (seen : Text) (c : ℕ)
    → nat_beq c b'}' ≡ true
    → pieces_text (if is_empty seen then lit (text "${}") ∷ [] else var seen ∷ []) ++ []
      ≡ text "${" ++ (seen ++ c ∷ [])
inside_text [] c h = ground arith
inside_text (b ∷ bs) c h = rw ((nat_beq_iff c b'}').0 h) (simp append-nil)

-- One step of the scan loses no byte.
step_text : (m : Mode) (c : ℕ) → pieces_text (out_of m c) ++ held (next_mode m c) ≡ held m ++ c ∷ []
unfolding out_of next_mode
step_text plain c = plain_text c
step_text dollar c = elim (Bool-cases (nat_beq c b'{')) [
  | inl h ↦ rw h (ground arith)
  | inr h ↦ rw h (ap (λ t. b'$' ∷ t) (plain_text c))
]
step_text (inside seen) c = elim (Bool-cases (nat_beq c b'}')) [
  | inl h ↦ rw h (inside_text seen c h)
  | inr h ↦ rw h refl
]

pieces_from_text : (m : Mode) (s : Text) → pieces_text (pieces_from m s) ≡ held m ++ s
unfolding pieces_from rest_of
pieces_from_text plain [] = refl
pieces_from_text dollar [] = refl
pieces_from_text (inside seen) [] = refl
pieces_from_text m (c ∷ s) =
    rw
      (
        pieces_text-append (out_of m c) (pieces_from (next_mode m c) s),
        pieces_from_text (next_mode m c) s,
      )
      (sym (append_assoc (pieces_text (out_of m c)) (held (next_mode m c)) s)
        ∙ ap (λ t. t ++ s) (step_text m c)
        ∙ append_assoc (held m) (c ∷ []) s)

-- The pieces that the scan finds make up the string again: nothing is lost, added or moved.
pieces_from-plain_text : (s : Text) → pieces_text (pieces_from plain s) ≡ s
pieces_from-plain_text s = pieces_from_text plain s

-- The byte does not occur in the string.
abbrev pub free_of : ℕ → Text → Bool
free_of b [] = true
free_of b (c ∷ s) = not (nat_beq c b) && free_of b s

module _ (ctx : SubstitutionContext) where
  replace_plain :
      (a s : Text)
      → free_of b'$' a ≡ true
      → replace_pieces ctx (pieces_from plain (a ++ s)) ≡ (
        a ++ (replace_pieces ctx (pieces_from plain s)).0,
        (replace_pieces ctx (pieces_from plain s)).1,
      )
  unfolding pieces_from out_of next_mode replace_pieces replace_piece
  replace_plain [] s h = refl
  replace_plain (c ∷ a) s h =
      let other : nat_beq c b'$' ≡ false = ground (arith, h) in
      rw other (ap (λ r. (c ∷ r.0, r.1)) (replace_plain a s (ground (arith, h))))

  pieces_from_inside :
      (seen inner s : Text)
      → free_of b'}' inner ≡ true
      → is_empty (seen ++ inner) ≡ false
      → pieces_from (inside seen) (inner ++ b'}' ∷ s) ≡ var (seen ++ inner) ∷ pieces_from plain s
  unfolding pieces_from out_of next_mode
  pieces_from_inside seen [] s h ne =
      let e : is_empty seen ≡ false = rw append-nil at ne in rw (e, append-nil)
  pieces_from_inside seen (c ∷ inner) s h ne =
      let other : nat_beq c b'}' ≡ false = ground (arith, h) in
      rw other (
        rw append_assoc at
          (pieces_from_inside (seen ++ c ∷ []) inner s (ground (arith, h)) (rw append_assoc ne)))

  is_empty-false : (t : Text) → t ≢ [] → is_empty t ≡ false
  is_empty-false t ne = ground arith

  replace_placeholder :
      (inner after : Text)
      → free_of b'}' inner ≡ true
      → inner ≢ []
      → replace_pieces ctx (pieces_from plain (placeholder inner ++ after)) ≡ (
        (replace_piece ctx (var inner)).0 ++ (replace_pieces ctx (pieces_from plain after)).0,
        add_warning
            (replace_piece ctx (var inner)).1
            (replace_pieces ctx (pieces_from plain after)).1,
      )
  unfolding pieces_from out_of next_mode replace_pieces
  replace_placeholder inner after k ne =
      rw (append_assoc inner (text "}") after)
        (ap (replace_pieces ctx) (pieces_from_inside [] inner after k (is_empty-false inner ne)))

  -- A placeholder behind text without `$` is replaced by the value of its variable, the text
  -- before it stays, and the string behind it is resolved as if it stood alone.
  pub resolve_string-placeholder :
      (before inner after : Text)
      → free_of b'$' before ≡ true
      → free_of b'}' inner ≡ true
      → inner ≢ []
      → resolve_string (before ++ (placeholder inner ++ after)) ctx ≡ (
        before ++ ((replace_piece ctx (var inner)).0 ++ (resolve_string after ctx).0),
        add_warning (replace_piece ctx (var inner)).1 (resolve_string after ctx).1,
      )
  unfolding resolve_string
  resolve_string-placeholder before inner after h k ne =
      replace_plain before (placeholder inner ++ after) h
      ∙ ap (λ r. (before ++ r.0, r.1)) (replace_placeholder inner after k ne)

  -- A string without `$` is left as it is, with no warning.
  resolve_string_plain : (s : Text) → free_of b'$' s ≡ true → resolve_string s ctx ≡ (s, [])
  unfolding resolve_string replace_pieces pieces_from rest_of
  resolve_string_plain s h = rw append-nil at (replace_plain s [] h)
