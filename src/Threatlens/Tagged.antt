-- ===== src/Threatlens/Tagged.antt =====
-- packages/modules/threatlens/src/seclab_threatlens/vectors.py: what a tag rests on.
use seclab.Prelude.{
  ◌≡◌, ◌≤◌, refl, ap, true, List, [], ◌∷◌, ◌++◌, map, arith, length, select, All, All-map,
  All-of_mem, Any, here, there, Bool-cases, inl, inr, if◌then◌else◌,
}
use seclab.Prelude.Parts.{select_sound, select_complete}
use seclab.Prelude.Text.{Text, codes, contains, lower}
use seclab.Phantom.Scoring.{RiskSignal}
use seclab.Threatlens.{
  Row, vector_keywords, matched_in, vector_signal, add_vector, tag_by, tag_article,
}

-- A signal of a row: its code is the row's, its evidence are exactly the keywords of the row that
-- the text has in it, at least one, and it weighs as many as there are.
pub record IsGrounded (haystack : Text) (s : RiskSignal) (row : Row) : Type 0 where
  pub code : s.code ≡ codes "vector:" ++ row.0
  pub some_evidence : 1 ≤ length s.evidence
  pub weighed : s.weight ≡ length s.evidence
  pub found : All (λ k. (contains k haystack ≡ true) × Any (λ q. q ≡ k) row.1) s.evidence
  pub missed_none : All (λ k. contains k haystack ≡ true → Any (λ q. q ≡ k) s.evidence) row.1

matched_in-All :
    (haystack : Text) (keywords : List Text)
    → All
        (λ k. (contains k haystack ≡ true) × Any (λ q. q ≡ k) keywords)
        (matched_in haystack keywords)
unfolding matched_in
matched_in-All haystack keywords = select_sound (λ k. contains k haystack) keywords

matched_in_all :
    (haystack : Text) (keywords : List Text)
    → All
        (λ k. contains k haystack ≡ true → Any (λ q. q ≡ k) (matched_in haystack keywords))
        keywords
unfolding matched_in
matched_in_all haystack keywords =
    All-of_mem _ keywords λ k m e. select_complete (λ q. contains q haystack) keywords k m e

-- A keyword in the text makes the row match.
matched_in_some :
    (haystack : Text) (keywords : List Text)
    → Any (λ k. contains k haystack ≡ true) keywords
    → 1 ≤ length (matched_in haystack keywords)
unfolding matched_in select
matched_in_some haystack [] h = elim h [ ]
matched_in_some haystack (k ∷ keywords) (here e) = rw e (omega arith)
matched_in_some haystack (k ∷ keywords) (there h) = elim (Bool-cases (contains k haystack)) [
  | inl e ↦ rw e (omega arith)
  | inr e ↦ rw e (matched_in_some haystack keywords h)
]

-- The signals with their vectors: as many of the one as of the other, each signal grounded in a row, each
-- vector of a row with a keyword in the text, and each such row with its vector.
pub record IsTagged (rows : List Row) (haystack : Text) (tagged : List RiskSignal × List Text)
    : Type 0 where
  pub aligned : map (λ s. s.code) tagged.0 ≡ map (λ v. codes "vector:" ++ v) tagged.1
  pub grounded : All (λ s. Any (IsGrounded haystack s) rows) tagged.0
  pub sound :
      All
        (λ v. Any (λ row. (row.0 ≡ v) × Any (λ k. contains k haystack ≡ true) row.1) rows)
        tagged.1
  pub complete :
      All (λ row. Any (λ k. contains k haystack ≡ true) row.1 → Any (λ v. v ≡ row.0) tagged.1) rows

matched_in_from :
    (haystack : Text) (keywords : List Text)
    → 1 ≤ length (matched_in haystack keywords)
    → Any (λ k. contains k haystack ≡ true) keywords
unfolding matched_in select
matched_in_from haystack [] h = absurd (omega (arith, h))
matched_in_from haystack (k ∷ keywords) h = elim (Bool-cases (contains k haystack)) [
  | inl e ↦ here e
  | inr e ↦ there (matched_in_from haystack keywords (rw (e, if◌then◌else◌) at h))
]

module _ (haystack vector : Text) (keywords : List Text) (rows : List Row) where
  -- A row in front, without a keyword in the text.
  unmatched-IsTagged :
      (tagged : List RiskSignal × List Text)
      → [] ≡ matched_in haystack keywords
      → IsTagged rows haystack tagged
      → IsTagged ((vector, keywords) ∷ rows) haystack tagged
  unmatched-IsTagged tagged none_matched h = record {
    aligned = h.aligned;
    grounded = All-map (λ s m. there m) tagged.0 h.grounded;
    sound = All-map (λ v m. there m) tagged.1 h.sound;
    complete = (
      λ m. absurd (omega (arith, rw (← none_matched) at (matched_in_some haystack keywords m))),
      h.complete,
    );
  }

  -- A row in front, with its signal.
  matched-IsTagged :
      (k : Text) (matched : List Text) (tagged : List RiskSignal × List Text)
      → k ∷ matched ≡ matched_in haystack keywords
      → IsTagged rows haystack tagged
      → IsTagged
          ((vector, keywords) ∷ rows)
          haystack
          (vector_signal vector (k ∷ matched) ∷ tagged.0, vector ∷ tagged.1)
  unfolding vector_signal
  matched-IsTagged k matched tagged is_matched h = record {
    aligned = ap (λ t. (codes "vector:" ++ vector) ∷ t) h.aligned;
    grounded = (
      here (record {
        code = refl;
        some_evidence = omega arith;
        weighed = refl;
        found = rw (← is_matched) at (matched_in-All haystack keywords);
        missed_none = rw (← is_matched) at (matched_in_all haystack keywords);
      }),
      All-map (λ s m. there m) tagged.0 h.grounded,
    );
    sound = (
      here (refl, matched_in_from haystack keywords (rw (← is_matched) (omega arith))),
      All-map (λ v m. there m) tagged.1 h.sound,
    );
    complete = (λ m. here refl, All-map (λ row later m. there (later m)) rows h.complete);
  }

  add_vector-IsTagged :
      (matched : List Text) (tagged : List RiskSignal × List Text)
      → matched ≡ matched_in haystack keywords
      → IsTagged rows haystack tagged
      → IsTagged ((vector, keywords) ∷ rows) haystack (add_vector vector matched tagged)
  unfolding add_vector
  add_vector-IsTagged [] tagged e h = unmatched-IsTagged tagged e h
  add_vector-IsTagged (k ∷ matched) tagged e h = matched-IsTagged k matched tagged e h

tag_by-IsTagged :
    (rows : List Row) (haystack : Text) → IsTagged rows haystack (tag_by rows haystack)
unfolding tag_by
tag_by-IsTagged [] haystack = record { aligned = refl; grounded = tt; sound = tt; complete = tt }
tag_by-IsTagged ((vector, keywords) ∷ rows) haystack =
    add_vector-IsTagged haystack vector keywords rows (matched_in haystack keywords)
      (tag_by rows haystack) refl (tag_by-IsTagged rows haystack)

-- An article has exactly the vectors of the table that have a keyword in its title and summary,
-- regardless of case. For each vector there is one signal, in the same order, with the code of a
-- row of the table; its evidence are exactly the keywords of that row that the text has in it, at
-- least one, and its weight is how many there are.
pub tag_article-IsTagged :
    (title summary : Text)
    → IsTagged vector_keywords (lower (title ++ (b' ' ∷ summary))) (tag_article title summary)
unfolding tag_article
tag_article-IsTagged title summary = tag_by-IsTagged vector_keywords _
