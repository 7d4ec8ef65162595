-- ===== src/Monitor/Artifact.antt =====
-- packages/modules/monitor/src/seclab_monitor/capture.py: the names of the files that are written.
use mathlib.Core.List.{reverse, reverse-append, reverse-reverse}
use seclab.Prelude.{
  ℕ, ◌≡◌, ◌≤◌, refl, sym, ap, ◌∙◌, Bool, true, false, [], ◌∷◌, ◌++◌, ◌||◌, arith, length, map, take,
  All, Bool-cases, inl, inr, if◌then◌else◌, nat_beq,
}
use seclab.Prelude.Parts.{take-All, length-take-le}
use seclab.Prelude.Text.{Text, codes, drop_while, lower, strip_of}
use seclab.Monitor.Listener.{
  is_safe_char, is_edge_char, max_filename_len, or_artifact, replace_unsafe, sanitize_filename,
}

-- A character of the allowlist, or the one that stands for all others.
abbrev pub is_name_char : ℕ → Bool
is_name_char c = is_safe_char c || nat_beq c 95

module _ (p : ℕ → Bool) where
  drop_while_split : (s : Text) → (r : Text) × (s ≡ r ++ drop_while p s)
  unfolding drop_while
  drop_while_split [] = ([], refl)
  drop_while_split (c ∷ s) = elim (Bool-cases (p c)) [
    | inl e ↦ let (r, same) = drop_while_split s in (c ∷ r, rw e (ap (λ t. c ∷ t) same))
    | inr e ↦ ([], rw e refl)
  ]

  strip_of_split : (s : Text) → (r : Text) × (drop_while p s ≡ strip_of p s ++ r)
  unfolding strip_of
  strip_of_split s =
      let t = drop_while p s in
      let (r, e) = drop_while_split (reverse t) in
      (
        reverse r,
        sym (reverse-reverse t) ∙ ap reverse e ∙ reverse-append r (drop_while p (reverse t)),
      )

  -- The first character that is left does not pass the test.
  drop_while_head : (s : Text) (c : ℕ) (t : Text) → drop_while p s ≡ c ∷ t → p c ≡ false
  unfolding drop_while
  drop_while_head [] c t h = absurd (ground (arith, h))
  drop_while_head (d ∷ s) c t h = elim (Bool-cases (p d)) [
    | inl e ↦ drop_while_head s c t (rw (e, if◌then◌else◌) at h)
    | inr e ↦ ground (arith, e, h)
  ]

  strip_of_head : (s : Text) (c : ℕ) (t : Text) → strip_of p s ≡ c ∷ t → p c ≡ false
  strip_of_head s c t h =
      let (r, e) = strip_of_split s in drop_while_head s c (t ++ r) (e ∙ ap (λ u. u ++ r) h)

module _ (P : ℕ → Type 0) where
  drop_while-All : (p : ℕ → Bool) (s : Text) → All P s → All P (drop_while p s)
  unfolding drop_while
  drop_while-All p [] h = tt
  drop_while-All p (c ∷ s) (q, h) = elim (Bool-cases (p c)) [
    | inl e ↦ rw e (drop_while-All p s h)
    | inr e ↦ rw e (q, h)
  ]

  front-All : (s t : Text) → All P (s ++ t) → All P s
  front-All [] t h = tt
  front-All (c ∷ s) t (q, h) = (q, front-All s t h)

  strip_of-All : (p : ℕ → Bool) (s : Text) → All P s → All P (strip_of p s)
  strip_of-All p s h =
      let (r, e) = strip_of_split p s in front-All (strip_of p s) r (rw e at (drop_while-All p s h))

replaced-All : (s : Text) → All (λ c. is_name_char c ≡ true) (map replace_unsafe s)
unfolding replace_unsafe is_safe_char
replaced-All [] = tt
replaced-All (c ∷ s) = (ground arith, replaced-All s)

pub record IsSafeName (name : Text) : Type 0 where
  pub bounded : length name ≤ max_filename_len
  pub safe : All (λ c. is_name_char c ≡ true) name
  pub begins : (c : ℕ) × (rest : Text) × (name ≡ c ∷ rest) × (is_edge_char c ≡ false)

taken-IsSafeName :
    (s : Text)
    → All (λ c. is_name_char c ≡ true) s
    → ((c : ℕ) × (rest : Text) × (s ≡ c ∷ rest) × (is_edge_char c ≡ false))
    → IsSafeName (take max_filename_len s)
taken-IsSafeName s h (c, rest, same, e) = record {
  bounded = length-take-le max_filename_len s;
  safe = take-All (λ d. is_name_char d ≡ true) max_filename_len s h;
  begins = (c, take 99 rest, rw same (unfold take in refl), e);
}

default_name : All (λ c. is_name_char c ≡ true) (codes "artifact")
unfolding codes is_safe_char
default_name = (refl, (refl, (refl, (refl, (refl, (refl, (refl, (refl, tt))))))))

or_artifact-IsSafeName :
    (s : Text)
    → All (λ c. is_name_char c ≡ true) s
    → ((c : ℕ) (t : Text) → s ≡ c ∷ t → is_edge_char c ≡ false)
    → IsSafeName (take max_filename_len (or_artifact s))
unfolding or_artifact codes is_edge_char
or_artifact-IsSafeName [] h k =
    taken-IsSafeName (codes "artifact") default_name (b'a', codes "rtifact", refl, refl)
or_artifact-IsSafeName (c ∷ s) h k = taken-IsSafeName (c ∷ s) h (c, s, refl, k c s refl)

-- Whatever text a file name is made of, the name that is used has at most 100 characters, each a
-- lower-case letter, a digit or one of `.-_`, and begins with none of `.` and `_`: it is not empty,
-- has no separator of directories and is neither `.` nor `..`.
pub sanitize_filename-IsSafeName : (filename : Text) → IsSafeName (sanitize_filename filename)
unfolding sanitize_filename
sanitize_filename-IsSafeName filename =
    or_artifact-IsSafeName (strip_of is_edge_char (map replace_unsafe (lower filename)))
      (strip_of-All (λ c. is_name_char c ≡ true) is_edge_char (map replace_unsafe (lower filename))
        (replaced-All (lower filename)))
      (λ c t. strip_of_head is_edge_char (map replace_unsafe (lower filename)) c t)
