-- ===== src/Security/Scope/Normal.antt =====
-- The lists of a policy after `_normalize_str_list`: no empty entry, none twice, and all trimmed
-- and in lower case, so that normalising again changes nothing.
use mathlib.Core.List.{reverse, reverse_aux, reverse-append, reverse-reverse}
use seclab.Prelude.{
  ℕ, ◌≡◌, ◌≢◌, refl, sym, ap, ◌∙◌, inl, inr, Bool, false, not, ◌&&◌, List, [], ◌∷◌, ◌++◌, map,
  arith, Bool-cases, All,
}
use seclab.Prelude.Text.{
  Text, lower, lower_char, strip, strip_of, drop_while, is_space, is_empty, text_beq_iff, text_eq,
}
use seclab.Security.Scope.{member, normalize_from, normalize_str_list}
use seclab.Security.Scope.Matching.{is_empty-cons}

-- Distinct from all that went before, and from one another.
abbrev pub IsFresh : List Text → List Text → Type 0
IsFresh seen [] = Unit
IsFresh seen (x ∷ xs) = (member x seen ≡ false) × IsFresh (x ∷ seen) xs

abbrev pub IsNormal : Text → Type 0
IsNormal s = (s ≢ []) × (lower (strip s) ≡ s)

lower_char_idem : (c : ℕ) → lower_char (lower_char c) ≡ lower_char c
unfolding lower_char
lower_char_idem c = ground arith

lower_idem : (s : Text) → lower (lower s) ≡ lower s
unfolding lower
lower_idem [] = refl
lower_idem (c ∷ s) = cc (lower_char_idem c, lower_idem s)

is_space-lower_char : (c : ℕ) → is_space (lower_char c) ≡ is_space c
unfolding is_space lower_char
is_space-lower_char c = ground arith

drop_while-lower : (s : Text) → drop_while is_space (lower s) ≡ lower (drop_while is_space s)
unfolding drop_while lower
drop_while-lower [] = refl
drop_while-lower (c ∷ s) = ground (arith, is_space-lower_char c, drop_while-lower s)

reverse_aux-lower : (s acc : Text) → reverse_aux (lower s) (lower acc) ≡ lower (reverse_aux s acc)
unfolding lower
reverse_aux-lower [] acc = refl
reverse_aux-lower (c ∷ s) acc = reverse_aux-lower s (c ∷ acc)

reverse-lower : (s : Text) → reverse (lower s) ≡ lower (reverse s)
unfolding lower
reverse-lower s = reverse_aux-lower s []

module _ (p : ℕ → Bool) where
  drop_while_idem : (s : Text) → drop_while p (drop_while p s) ≡ drop_while p s
  unfolding drop_while
  drop_while_idem [] = refl
  drop_while_idem (c ∷ s) = ground (arith, drop_while_idem s)

  -- the characters dropped, before what is left
  drop_while_split : (s : Text) → (r : Text) × (s ≡ r ++ drop_while p s)
  unfolding drop_while
  drop_while_split [] = ([], refl)
  drop_while_split (c ∷ s) = elim (Bool-cases (p c)) [
    | inl e ↦ let (r, q) = drop_while_split s in (c ∷ r, rw e (ap (λ (t : Text). c ∷ t) q))
    | inr e ↦ ([], rw e refl)
  ]

  drop_while_head : (s : Text) (c : ℕ) (t : Text) → drop_while p s ≡ c ∷ t → p c ≡ false
  unfolding drop_while
  drop_while_head [] c t h = ground arith
  drop_while_head (d ∷ s) c t h = ground (arith, drop_while_head s c t)

  -- a prefix of a text that begins well begins well
  drop_while_prefix : (s v q : Text) → drop_while p s ≡ v ++ q → drop_while p v ≡ v
  unfolding drop_while
  drop_while_prefix s [] q h = refl
  drop_while_prefix s (c ∷ v) q h = rw (drop_while_head s c (v ++ q) h) refl

  strip_of_idem : (s : Text) → strip_of p (strip_of p s) ≡ strip_of p s
  unfolding strip_of
  strip_of_idem s =
      let u : Text = drop_while p s in
      let w : Text = drop_while p (reverse u) in
      let (r, e) = drop_while_split (reverse u) in
      let whole : drop_while p s ≡ reverse w ++ reverse r =
        sym (reverse-reverse u) ∙ ap reverse e ∙ reverse-append r w in
      rw
        (
          drop_while_prefix s (reverse w) (reverse r) whole,
          reverse-reverse w,
          drop_while_idem (reverse u),
        )
        refl

strip-lower : (s : Text) → strip (lower s) ≡ lower (strip s)
unfolding strip strip_of
strip-lower s = simp (drop_while-lower, reverse-lower)

strip_idem : (s : Text) → strip (strip s) ≡ strip s
unfolding strip
strip_idem s = strip_of_idem is_space s

lower-strip_idem : (s : Text) → lower (strip (lower (strip s))) ≡ lower (strip s)
lower-strip_idem s = rw (strip-lower (strip s), lower_idem, strip_idem) refl

normalize_from-IsFresh : (seen items : List Text) → IsFresh seen (normalize_from seen items)
unfolding normalize_from
normalize_from-IsFresh seen [] = tt
normalize_from-IsFresh seen (item ∷ items) = ground (
  arith,
  normalize_from-IsFresh seen items,
  normalize_from-IsFresh (lower (strip item) ∷ seen) items,
)

normalize_from-IsNormal : (seen items : List Text) → All IsNormal (normalize_from seen items)
unfolding normalize_from
normalize_from-IsNormal seen [] = tt
normalize_from-IsNormal seen (item ∷ items) = ground (
  arith,
  lower-strip_idem item,
  normalize_from-IsNormal seen items,
  normalize_from-IsNormal (lower (strip item) ∷ seen) items,
)

normalize_from_of_fresh :
    (seen items : List Text)
    → All IsNormal items
    → IsFresh seen items
    → normalize_from seen items ≡ items
unfolding normalize_from
normalize_from_of_fresh seen [] h f = refl
normalize_from_of_fresh seen (x ∷ xs) ((full, same), h) (fresh, f) =
    rw (same, fresh, is_empty-cons x full)
      (ap (λ (t : List Text). x ∷ t) (normalize_from_of_fresh (x ∷ seen) xs h f))

member-nil : (z : Text) → member z [] ≡ false
unfolding member
member-nil z = refl

member-normalize_from :
    (z : Text) (seen items : List Text)
    → member z (normalize_from seen items)
      ≡ (not (is_empty z) && not (member z seen) && member z (map (λ i. lower (strip i)) items))
unfolding normalize_from member
member-normalize_from z seen [] = ground arith
member-normalize_from z seen (x ∷ items) = ground (
  arith,
  text_beq_iff (lower (strip x)) z,
  member-normalize_from z seen items,
  member-normalize_from z (lower (strip x) ∷ seen) items,
)

-- What `_normalize_str_list` promises of the list that it returns.
pub record IsNormalized (items kept : List Text) : Type 0 where
  pub distinct : IsFresh [] kept
  pub normal : All IsNormal kept
  pub same_members :
      (z : Text) → member z kept ≡ (not (is_empty z) && member z (map (λ i. lower (strip i)) items))

-- The list holds exactly the trimmed, lower-case forms of the given texts that are not empty,
-- each of them once.
pub normalize_str_list-IsNormalized :
    (items : List Text) → IsNormalized items (normalize_str_list items)
unfolding normalize_str_list
normalize_str_list-IsNormalized items = record {
  distinct = normalize_from-IsFresh [] items;
  normal = normalize_from-IsNormal [] items;
  same_members = λ z. ground (arith, member-normalize_from z [] items, member-nil z);
}

-- A stored policy that is validated again keeps its lists: normalising twice is normalising once.
pub normalize_str_list_idem :
    (items : List Text) → normalize_str_list (normalize_str_list items) ≡ normalize_str_list items
unfolding normalize_str_list
normalize_str_list_idem items =
    normalize_from_of_fresh [] (normalize_from [] items) (normalize_from-IsNormal [] items)
      (normalize_from-IsFresh [] items)
