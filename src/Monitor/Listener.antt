-- ===== src/Monitor/Listener.antt =====
-- packages/modules/monitor/src/seclab_monitor/listener.py and capture.py: the matches of one
-- message of the certificate stream, and the names of artifacts.
use seclab.Prelude.{
  ℕ, Bool, none, some, List, [], ◌∷◌, ◌++◌, map, find, take, leb, ◌==◌, ◌&&◌, ◌||◌, if◌then◌else◌,
  nat_eq, nat_beq,
}
use seclab.Prelude.Text.{
  Text, codes, contains, drop, is_empty, lower, starts_with, strip_of, text_eq,
}

pub record CertMessage : Type 0 where
  pub message_type : Text
  pub all_domains : List Text
  pub issuer : Text

-- `domain.removeprefix("*.")`
unfoldable pub remove_wildcard : Text → Text
remove_wildcard domain = if starts_with (codes "*.") domain then drop 2 domain else domain

-- the loop over the keywords, which stops at the first that matches
unfoldable pub match_of : Text → List Text → Text → List (Text × Text × Text)
unfolding remove_wildcard
match_of issuer keywords domain = elim (find (λ k. contains k (lower domain)) keywords) [
  | none ↦ []
  | some keyword ↦ (remove_wildcard domain, issuer, keyword) ∷ []
]

-- the loop over the domains
unfoldable pub matches_in : Text → List Text → List Text → List (Text × Text × Text)
unfolding match_of
matches_in issuer keywords [] = []
matches_in issuer keywords (domain ∷ domains) =
    match_of issuer keywords domain ++ matches_in issuer keywords domains

unfoldable pub extract_matches : CertMessage → List Text → List (Text × Text × Text)
unfolding matches_in
extract_matches message keywords =
    if message.message_type == codes "certificate_update"
    then matches_in message.issuer keywords message.all_domains
    else []

-- `[a-z0-9.-]`
unfoldable pub is_safe_char : ℕ → Bool
is_safe_char c =
    (leb 97 c && leb c 122) || ((leb 48 c && leb c 57) || (nat_beq c b'.' || nat_beq c b'-'))

abbrev pub max_filename_len : ℕ
max_filename_len = 100

unfoldable pub is_edge_char : ℕ → Bool
is_edge_char c = nat_beq c b'.' || nat_beq c b'_'

-- `text or "artifact"`
unfoldable pub or_artifact : Text → Text
or_artifact text = if is_empty text then codes "artifact" else text

unfoldable pub replace_unsafe : ℕ → ℕ
unfolding is_safe_char
replace_unsafe c = if is_safe_char c then c else b'_'

-- `_sanitize_filename`
unfoldable pub sanitize_filename : Text → Text
unfolding is_edge_char or_artifact replace_unsafe
sanitize_filename filename =
    take max_filename_len
      (or_artifact (strip_of is_edge_char (map replace_unsafe (lower filename))))
