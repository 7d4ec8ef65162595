-- ===== src/Prelude/Text/Laws.antt =====
-- Laws of the text operations.
use Prim.Native.Nat.{ℕ, zero, suc, ◌+◌, ◌-◌, ◌*◌, ◌/◌, ◌%◌, ◌<◌}
use mathlib.Core.Path.{◌≡◌, refl, sym, ap, ◌∙◌}
use mathlib.Core.Logic.{inl, inr}
use mathlib.Core.Bool.{true}
use mathlib.Core.Option.{some}
use mathlib.Core.List.{[], ◌∷◌, ◌++◌, reverse, reverse-append, reverse-reverse}
use native.Mathlib.Omega.{arith}
use seclab.Prelude.Tests.{ltb, Bool-cases}
use seclab.Prelude.Text.{Text, starts_with, ends_with, decimal_from, decimal, number_from, number}

pub starts_with-append : (p s : Text) → starts_with p (p ++ s) ≡ true
unfolding starts_with
starts_with-append [] s = refl
starts_with-append (c ∷ p) s = ground (arith, starts_with-append p s)

-- A prefix test that passes splits the text.
pub starts_with_split : (p s : Text) → starts_with p s ≡ true → (r : Text) × (s ≡ p ++ r)
unfolding starts_with
starts_with_split [] s h = (s, refl)
starts_with_split (c ∷ p) [] h = ground arith
starts_with_split (c ∷ p) (d ∷ s) h =
    let (r, e) = starts_with_split p s (ground arith) in (r, ground (arith, e))

pub ends_with-append : (s p : Text) → ends_with p (s ++ p) ≡ true
unfolding ends_with
ends_with-append s p = rw (reverse-append s p) (starts_with-append (reverse p) (reverse s))

pub ends_with_split : (p s : Text) → ends_with p s ≡ true → (r : Text) × (s ≡ r ++ p)
unfolding ends_with
ends_with_split p s h =
    let (r, e) = starts_with_split (reverse p) (reverse s) h in
    (
      reverse r,
      sym (reverse-reverse s)
          ∙ ap reverse e
          ∙ reverse-append (reverse p) r
          ∙ ap (λ (q : Text). reverse r ++ q) (reverse-reverse p),
    )

number_from-append :
    (n c m : ℕ) (s : Text)
    → number_from n s ≡ some m
    → number_from n (s ++ c ∷ []) ≡ number_from m (c ∷ [])
unfolding number_from
number_from-append n c m [] h = ground arith
number_from-append n c m (d ∷ s) h = ground (arith, number_from-append (n * 10 + (d - 48)) c m s)

number_from_digit : (m d : ℕ) → d < 10 → number_from m ((48 + d) ∷ []) ≡ some (m * 10 + d)
unfolding number_from
number_from_digit m d h = ground arith

decimal_from-number : (f n : ℕ) → n < f → number_from 0 (decimal_from f n) ≡ some n
unfolding decimal_from
decimal_from-number zero n h = absurd (omega arith)
decimal_from-number (suc f) n h = elim (Bool-cases (ltb n 10)) [
  | inl small ↦ rw small (ground (arith, number_from_digit 0 n))
  | inr large ↦ rw large (
      ground (
        arith,
        number_from-append 0 (48 + n % 10) (n / 10) (decimal_from f (n / 10)),
        decimal_from-number f (n / 10),
        number_from_digit (n / 10) (n % 10),
      ))
]

decimal_from-cons : (f n : ℕ) → n < f → (c : ℕ) × (s : Text) × (decimal_from f n ≡ c ∷ s)
unfolding decimal_from
decimal_from-cons zero n h = absurd (omega arith)
decimal_from-cons (suc f) n h = elim (Bool-cases (ltb n 10)) [
  | inl small ↦ rw small (48 + n, [], refl)
  | inr large ↦
      let (c, s, e) = decimal_from-cons f (n / 10) (ground arith) in
      rw large (c, s ++ (48 + n % 10) ∷ [], ap (λ (t : Text). t ++ (48 + n % 10) ∷ []) e)
]

-- `int(str(n))` is `n`.
pub number-decimal : (n : ℕ) → number (decimal n) ≡ some n
unfolding number decimal
number-decimal n =
    let (c, s, e) = decimal_from-cons (suc n) n (omega arith) in
    rw e (rw e at (decimal_from-number (suc n) n (omega arith)))

pub decimal_injective : (m n : ℕ) → decimal m ≡ decimal n → m ≡ n
decimal_injective m n e = ground (arith, number-decimal m, number-decimal n, ap number e)
