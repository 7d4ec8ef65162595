-- ===== src/Security/Url.antt =====
-- What `urllib.parse.urlparse` of the standard library does with an ASCII text, as far as
-- scope_guard.py reads its result: `hostname`, `netloc` and `path`. `bracketed_ok` stands for
-- the check that `ipaddress` makes on a host in square brackets.
use seclab.Prelude.{
  ℕ, Bool, true, false, not, ◌&&◌, ◌||◌, Option, none, some, [], ◌∷◌, ◌++◌, any, select, leb, ◌==◌,
  if◌then◌else◌,
}
use mathlib.Core.List.{reverse}
use seclab.Prelude.Text.{
  Text, codes, lower, drop_while, starts_with, drop, is_empty, number, text_eq,
}
use seclab.Prelude.{nat_beq}
use seclab.Security.Models.{Result, ok, err, value_error}

-- the part before the first character that passes the test, and the rest with that character
unfoldable pub before : (ℕ → Bool) → Text → Text
before p [] = []
before p (c ∷ s) = if p c then [] else c ∷ before p s

unfoldable pub from : (ℕ → Bool) → Text → Text
from p [] = []
from p (c ∷ s) = if p c then c ∷ s else from p s

abbrev pub is_char : ℕ → ℕ → Bool
is_char d c = nat_beq c d

unfoldable pub has : ℕ → Text → Bool
has d s = any (is_char d) s

is_alpha : ℕ → Bool
is_alpha c = (leb 65 c && leb c 90) || (leb 97 c && leb c 122)

is_scheme_char : ℕ → Bool
unfolding is_alpha
is_scheme_char c =
    is_alpha c || (leb 48 c && leb c 57) || is_char b'+' c || is_char b'-' c || is_char b'.' c

pub record ParseResult : Type 0 where
  pub scheme : Text
  pub netloc : Text
  pub path : Text

-- leading control characters and blanks go, and tabs and line ends everywhere
clean : Text → Text
clean url =
    select (λ c. not (is_char 9 c || is_char 10 c || is_char 13 c)) (drop_while (λ c. leb c 32) url)

-- the scheme in lower case, and what follows its colon
split_scheme : Text → Text × Text
split_scheme url =
    let name = before (is_char b':') url in
    if has b':' url && (starts_alpha url && not (any (λ c. not (is_scheme_char c)) name))
    then (lower name, drop 1 (from (is_char b':') url))
    else ([], url)
  where
    starts_alpha : Text → Bool
    starts_alpha [] = false
    starts_alpha (c ∷ s) = is_alpha c

abbrev ends_netloc : ℕ → Bool
ends_netloc c = is_char b'/' c || is_char b'?' c || is_char b'#' c

abbrev ends_path : ℕ → Bool
ends_path c = is_char b'?' c || is_char b'#' c

-- schemes whose last path segment may carry parameters after a semicolon
uses_params : Text → Bool
uses_params scheme =
    any (λ s. s == scheme)
      (codes ""
        ∷ codes "ftp"
        ∷ codes "hdl"
        ∷ codes "prospero"
        ∷ codes "http"
        ∷ codes "https"
        ∷ codes "shttp"
        ∷ codes "rtsp"
        ∷ codes "rtsps"
        ∷ codes "rtspu"
        ∷ codes "sip"
        ∷ codes "sips"
        ∷ codes "mms"
        ∷ codes "sftp"
        ∷ codes "tel"
        ∷ [])

-- the path without the parameters: everything up to the last slash, then up to a semicolon
split_params : Text → Text
split_params path =
    let last = reverse (before (is_char b'/') (reverse path)) in
    let dir = reverse (from (is_char b'/') (reverse path)) in dir ++ before (is_char b';') last

path_of : Text → Text → Text
path_of scheme rest =
    let path = before ends_path rest in if uses_params scheme then split_params path else path

module _ (bracketed_ok : Text → Bool) where
  -- one bracket without the other, or a bracketed host that is no address, raises
  netloc_ok : Text → Bool
  netloc_ok netloc =
      if has b'[' netloc && has b']' netloc
      then bracketed_ok (before (is_char b']') (drop 1 (from (is_char b'[') netloc)))
      else not (has b'[' netloc || has b']' netloc)

  after_scheme : Text → Text → Result ParseResult
  after_scheme scheme rest =
      if starts_with (codes "//") rest
      then (let netloc = before ends_netloc (drop 2 rest) in
          if netloc_ok netloc
          then ok (record {
            scheme = scheme;
            netloc = netloc;
            path = path_of scheme (from ends_netloc (drop 2 rest));
          })
          else err value_error)
      else ok (record { scheme = scheme; netloc = []; path = path_of scheme rest })

  unfoldable pub urlparse : Text → Result ParseResult
  unfolding after_scheme netloc_ok path_of uses_params split_params split_scheme clean
      is_scheme_char is_alpha before from has
  urlparse url = let (scheme, rest) = split_scheme (clean url) in after_scheme scheme rest

-- `ParseResult.hostname`: user and port dropped, lower case up to a zone, `none` if empty
unfoldable pub hostname : ParseResult → Option Text
unfolding before from has
hostname parsed =
    let hostinfo = reverse (before (is_char b'@') (reverse parsed.netloc)) in
    let host =
      if has b'[' hostinfo
      then before (is_char b']') (drop 1 (from (is_char b'[') hostinfo))
      else before (is_char b':') hostinfo in
    if is_empty host
    then none
    else some (lower (before (is_char b'%') host) ++ from (is_char b'%') host)

-- the text of `ParseResult.port`: what follows the host and a colon
port_text : ParseResult → Text
unfolding before from has
port_text parsed =
    let hostinfo = reverse (before (is_char b'@') (reverse parsed.netloc)) in
    if has b'[' hostinfo
    then drop 1 (from (is_char b':') (from (is_char b']') hostinfo))
    else drop 1 (from (is_char b':') hostinfo)

-- `ParseResult.port` does not raise
unfoldable pub port_ok : ParseResult → Bool
unfolding port_text
port_ok parsed =
    if is_empty (port_text parsed)
    then true
    else elim (number (port_text parsed)) [ none ↦ false | some n ↦ leb n 65535 ]
