-- ===== src/Security/Scope/Matching.antt =====
-- When a pattern of the policy covers a host, as a relation, and that `_domain_matches` decides it.
use seclab.Prelude.{
  ◌≡◌, ◌≢◌, ◌↔◌, refl, ap, ◌∙◌, inl, inr, true, false, [], ◌∷◌, ◌++◌, arith, Bool-cases,
}
use seclab.Prelude.Text.{
  Text, codes, lower, strip, starts_with, ends_with, drop, is_empty, text_beq_iff, text_eq,
}
use seclab.Prelude.Text.Laws.{
  starts_with-append, starts_with_split, ends_with-append, ends_with_split,
}
use seclab.Security.Scope.{domain_matches}

-- A pattern covers a host if the pattern, trimmed and in lower case, is `*.` and a suffix that the
-- host has behind a dot, or else is the host.
pub data Covers (host pattern : Text) : Type 0 where
  wildcard :
      (suffix sub : Text)
      → lower (strip pattern) ≡ codes "*." ++ suffix
      → host ≡ sub ++ b'.' ∷ suffix
      → Covers host pattern
  exact :
      ((suffix : Text) → lower (strip pattern) ≢ codes "*." ++ suffix)
      → lower (strip pattern) ≢ []
      → host ≡ lower (strip pattern)
      → Covers host pattern

drop_prefix : (s : Text) → drop 2 (codes "*." ++ s) ≡ s
unfolding codes drop
drop_prefix s = refl

pub is_empty-cons : (s : Text) → s ≢ [] → is_empty s ≡ false
is_empty-cons [] h = absurd (h refl)
is_empty-cons (c ∷ s) h = refl

ne_of_is_empty : (s : Text) → is_empty s ≡ false → s ≢ []
ne_of_is_empty [] h e = absurd (ground (arith, h))
ne_of_is_empty (c ∷ s) h e = ground arith

wildcard_nonempty : (s : Text) → is_empty (codes "*." ++ s) ≡ false
unfolding codes
wildcard_nonempty s = refl

not_starts_with : (p s : Text) → ((r : Text) → s ≢ p ++ r) → starts_with p s ≡ false
not_starts_with p s h = elim (Bool-cases (starts_with p s)) [
  | inl e ↦ let (r, split) = starts_with_split p s e in absurd (h r split)
  | inr e ↦ e
]

module _ (host pattern : Text) where
  domain_matches_wildcard :
      starts_with (codes "*.") (lower (strip pattern)) ≡ true
      → ends_with (b'.' ∷ drop 2 (lower (strip pattern))) host ≡ true
      → Covers host pattern
  domain_matches_wildcard start end =
      let (suffix, e) = starts_with_split (codes "*.") (lower (strip pattern)) start in
      let (sub, e') = ends_with_split (b'.' ∷ drop 2 (lower (strip pattern))) host end in
      wildcard suffix sub e
        (e' ∙ ap (λ (t : Text). sub ++ b'.' ∷ t) (ap (drop 2) e ∙ drop_prefix suffix))

  domain_matches_sound : domain_matches host pattern ≡ true → Covers host pattern
  unfolding domain_matches
  domain_matches_sound h = elim (Bool-cases (starts_with (codes "*.") (lower (strip pattern)))) [
    | inl e ↦ domain_matches_wildcard e (ground arith)
    | inr e ↦
        exact
          (λ suffix q. absurd (
            ground
              (arith, e, starts_with-append (codes "*.") suffix, ap (starts_with (codes "*.")) q)))
          (ne_of_is_empty (lower (strip pattern)) (ground arith))
          ((text_beq_iff host (lower (strip pattern))).0 (ground arith))
  ]

  domain_matches_complete : Covers host pattern → domain_matches host pattern ≡ true
  unfolding domain_matches
  domain_matches_complete (wildcard suffix sub e e') =
      rw (e, e', wildcard_nonempty, starts_with-append, drop_prefix)
        (ends_with-append sub (b'.' ∷ suffix))
  domain_matches_complete (exact plain full e) =
      rw (is_empty-cons _ full, not_starts_with (codes "*.") _ plain)
        ((text_beq_iff host (lower (strip pattern))).1 e)

  -- `_domain_matches` answers true exactly for the hosts that the pattern covers.
  pub domain_matches_iff : (domain_matches host pattern ≡ true) ↔ Covers host pattern
  domain_matches_iff = (domain_matches_sound, domain_matches_complete)
