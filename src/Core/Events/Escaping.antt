-- ===== src/Core/Events/Escaping.antt =====
-- What a text that comes from outside becomes in an alert.
use seclab.Prelude.{
  ℕ, ◌≡◌, ◌≢◌, ◌≤◌, ◌⊎◌, not, ◌&&◌, refl, Bool, false, [], ◌∷◌, ◌++◌, arith, length, ◌||◌,
  if◌then◌else◌, nat_eq, nat_beq, All,
}
use seclab.Prelude.Text.{Text}
use seclab.Core.Events.{Event, Embed, replace_char, escape_chars, escape_markdown}

-- a character that has a meaning in Discord's markdown
unfoldable pub is_special : ℕ → Bool
is_special c = nat_beq c 42 || (nat_beq c 95 || (nat_beq c 126 || (nat_beq c 124 || nat_beq c 64)))

-- one pass over the text: a backslash before every special character
unfoldable pub escape_each : Text → Text
unfolding is_special
escape_each [] = []
escape_each (c ∷ text) =
    let rest = escape_each text in if is_special c then b'\\' ∷ c ∷ rest else c ∷ rest

-- The special characters that a reader of Markdown takes as formatting, to whom a backslash hides
-- the punctuation behind it, also another backslash; `hidden` says whether one is open.
unfoldable pub live : Bool → Text → Text
unfolding is_special
live hidden [] = []
live hidden (c ∷ text) =
    let rest = live false text in
    let behind = live (not hidden) text in
    if nat_beq c 92 then behind else if is_special c && not hidden then c ∷ rest else rest

-- The special characters that a backslash of the text itself hides.
unfoldable pub hidden_in : Bool → Text → Text
unfolding is_special
hidden_in hidden [] = []
hidden_in hidden (c ∷ text) =
    let rest = hidden_in false text in
    let behind = hidden_in (not hidden) text in
    if nat_beq c 92 then behind else if is_special c && hidden then c ∷ rest else rest

pub escape_markdown_each : (text : Text) → escape_markdown text ≡ escape_each text
unfolding escape_markdown escape_each is_special escape_chars replace_char
escape_markdown_each [] = refl
escape_markdown_each (c ∷ text) = ground (arith, escape_markdown_each text)

-- A code span that ends where the field ends, or two backticks, which are none.
abbrev pub IsCodeSpan : Text → Type 0
IsCodeSpan s =
    ((inside : Text) × (s ≡ 96 ∷ (inside ++ (96 ∷ [])))
      × All (λ c. c ≢ 96) inside
      × (1 ≤ length inside))
    ⊎ (s ≡ 96 ∷ 96 ∷ [])

pub record IsClean (event : Event) (embed : Embed) : Type 0 where
  pub hidden : embed.description ≡ escape_each event.summary
  pub formats : live false embed.description ≡ hidden_in false event.summary
  pub spans : All (λ f. IsCodeSpan f.1) embed.fields
  pub bounded : length embed.fields ≤ 10
