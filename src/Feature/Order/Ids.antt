-- ===== src/Feature/Order/Ids.antt =====
-- What `normalizeID` makes of a reference.
use devcontainer.Base.{
  ℕ, Bool, true, false, not, [], ◌∷◌, ◌++◌, none, some, Text, any, nat_beq, nat_beq_iff, ◌≡◌, refl,
  arith,
}
use devcontainer.Feature.Order.{cut_last, has_scheme, strip_digest, strip_tag}

-- The byte does not occur in the string.
abbrev pub lacks : ℕ → Text → Bool
lacks b s = not (any (nat_beq b) s)

cut_last-none : (b : ℕ) (s : Text) → lacks b s ≡ true → cut_last b s ≡ none
unfolding cut_last any
cut_last-none b [] h = refl
cut_last-none b (c ∷ s) h =
    let miss : nat_beq c b ≡ false = ground (arith, nat_beq_iff c b, nat_beq_iff b c, h) in
    rw (cut_last-none b s (ground (arith, h)), miss) refl

pub cut_last_found :
    (b : ℕ) (pre post : Text)
    → lacks b post ≡ true
    → cut_last b (pre ++ b ∷ post) ≡ some (pre, post)
unfolding cut_last any
cut_last_found b [] post h = rw (cut_last-none b post h, (nat_beq_iff b b).1 refl) refl
cut_last_found b (c ∷ pre) post h = rw (cut_last_found b pre post h) refl

strip_digest_none : (ref : Text) → lacks b'@' ref ≡ true → strip_digest ref ≡ ref
unfolding strip_digest
strip_digest_none ref h = rw (cut_last-none b'@' ref h, strip_digest) refl

strip_digest_found :
    (repo digest : Text) → lacks b'@' digest ≡ true → strip_digest (repo ++ b'@' ∷ digest) ≡ repo
unfolding strip_digest
strip_digest_found repo digest h = rw (cut_last_found b'@' repo digest h, strip_digest) refl

strip_tag_found :
    (repo tag : Text)
    → lacks b':' tag ≡ true
    → has_scheme repo ≡ false
    → strip_tag (repo ++ b':' ∷ tag) ≡ repo
unfolding strip_tag
strip_tag_found repo tag h plain = rw (cut_last_found b':' repo tag h, strip_tag, plain) refl
