-- ===== src/Phantom/Discovery.antt =====
-- packages/modules/phantom/src/seclab_phantom/discovery.py: the profile of a target, and the variants
-- of its domain.
pub mod Variants
use seclab.Prelude.{
  ℕ, zero, suc, ◌≡◌, Bool, true, false, not, ◌&&◌, ◌||◌, Option, none, some, List, [], ◌∷◌, ◌++◌,
  any, take, length, leb, ltb, nat_beq, ◌==◌, if◌then◌else◌, select,
}
use mathlib.Core.List.{reverse}
use seclab.Prelude.Text.{Text, codes, lower, strip, drop, is_empty, text_eq}
use seclab.Security.Url.{before, from, has, is_char}

pub data TargetType : Type 0 where
  brand domain : TargetType

pub record TargetRequest : Type 0 where
  pub target : Text
  pub target_type : TargetType

pub record TargetProfile : Type 0 where
  pub original_input : Text
  pub normalized_target : Text
  pub brand_keyword : Text
  pub root_domain : Option Text
  pub apex_domain : Option Text

pub record DomainVariation : Type 0 where
  pub domain : Text
  pub technique : Text
  pub source_target : Text
  pub risk_context_tags : List Text

-- the last two labels, or all there is
last_two : Text → Text
last_two name =
    let backwards = reverse name in
    let rest = drop 1 (from (is_char b'.') backwards) in
    if has b'.' name
    then reverse (before (is_char b'.') rest) ++ b'.' ∷ reverse (before (is_char b'.') backwards)
    else name

unfoldable pub build_target_profile : TargetRequest → TargetProfile
unfolding last_two
build_target_profile request =
    let normalized = lower (strip request.target) in
    elim request.target_type [
      | domain ↦ record {
        original_input = request.target;
        normalized_target = normalized;
        brand_keyword = before (is_char b'.') normalized;
        root_domain = some normalized;
        apex_domain = some (last_two normalized);
      }
      | brand ↦ record {
        original_input = request.target;
        normalized_target = normalized;
        brand_keyword = select (λ c. not (is_char b' ' c)) normalized;
        root_domain = none;
        apex_domain = none;
      }
    ]

abbrev pub names : Text → DomainVariation → Bool
names candidate v = v.domain == candidate

-- `candidate == profile.root_domain`
abbrev pub is_root : Option Text → Text → Bool
is_root none candidate = false
is_root (some root) candidate = candidate == root

module _ (profile : TargetProfile) (limit : ℕ) where
  -- `add`: the variants so far, and a candidate
  unfoldable pub add : Text → Text → Text → List DomainVariation → List DomainVariation
  add candidate technique tag variants =
      if leb limit (length variants) || not (has b'.' candidate)
      then variants
      else if is_root profile.root_domain candidate
      then variants
      else if any (names candidate) variants
      then variants
      else variants
        ++ record {
          domain = candidate;
          technique = technique;
          source_target = profile.normalized_target;
          risk_context_tags = tag ∷ [];
        }
          ∷ []

  -- The candidates in their order, each with its technique and tag.
  unfoldable pub add_all : List (Text × Text × Text) → List DomainVariation → List DomainVariation
  unfolding add
  add_all [] variants = variants
  add_all ((candidate, technique, tag) ∷ rest) variants =
      add_all rest (add candidate technique tag variants)

abbrev pub common_tlds : List Text
common_tlds = codes "com" ∷ codes "net" ∷ codes "org" ∷ codes "co" ∷ codes "io" ∷ codes "biz" ∷ []

-- the candidates of one top level domain
unfoldable pub lures : Text → Text → List (Text × Text × Text)
lures keyword tld =
    (codes "login-" ++ keyword ++ codes "." ++ tld, codes "brand-prefix", codes "credential-lure")
    ∷ (
      codes "secure-" ++ keyword ++ codes "." ++ tld,
      codes "brand-prefix",
      codes "credential-lure",
    )
    ∷ (
      codes "verify-" ++ keyword ++ codes "." ++ tld,
      codes "brand-prefix",
      codes "credential-lure",
    )
    ∷ (
      codes "portal-" ++ keyword ++ codes "." ++ tld,
      codes "brand-prefix",
      codes "credential-lure",
    )
    ∷ (keyword ++ codes "-support." ++ tld, codes "support-lure", codes "support-theme")
    ∷ (keyword ++ codes "-secure." ++ tld, codes "security-lure", codes "credential-lure")
    ∷ (keyword ++ tld ++ codes "." ++ tld, codes "tld-blend", codes "brand-concatenation")
    ∷ []

unfoldable pub all_lures : Text → List Text → List (Text × Text × Text)
unfolding lures
all_lures keyword [] = []
all_lures keyword (tld ∷ tlds) = lures keyword tld ++ all_lures keyword tlds

-- `keyword[:-1]` and `keyword[-1]`
but_last : Text → Text
but_last keyword = elim (reverse keyword) [ [] ↦ [] | c ∷ s ↦ reverse s ]

last_of : Text → Text
last_of keyword = elim (reverse keyword) [ [] ↦ [] | c ∷ s ↦ c ∷ [] ]

unfoldable pub typing_errors : Text → List (Text × Text × Text)
unfolding but_last last_of
typing_errors keyword =
    if ltb 3 (length keyword)
    then ((but_last keyword ++ codes ".com", codes "character-omission", codes "typing-error")
        ∷ (
          keyword ++ last_of keyword ++ codes ".com",
          codes "character-duplication",
          codes "typing-error",
        )
        ∷ (but_last keyword ++ codes "0.com", codes "character-swap", codes "homoglyph-risk")
        ∷ [])
    else []

-- `keyword.replace(original, replacement, 1)`
replace_first : ℕ → ℕ → Text → Text
replace_first original replacement [] = []
replace_first original replacement (c ∷ s) =
    if nat_beq c original then replacement ∷ s else c ∷ replace_first original replacement s

abbrev homoglyphs : List (ℕ × ℕ)
homoglyphs = (b'a', b'4') ∷ (b'e', b'3') ∷ (b'i', b'1') ∷ (b'o', b'0') ∷ (b's', b'5') ∷ []

unfoldable pub look_alikes : Text → List (ℕ × ℕ) → List (Text × Text × Text)
unfolding replace_first
look_alikes keyword [] = []
look_alikes keyword ((original, replacement) ∷ rest) =
    let others = look_alikes keyword rest in
    if has original keyword
    then (
      replace_first original replacement keyword ++ codes ".com",
      codes "homoglyph",
      codes "homoglyph-risk",
    )
      ∷ others
    else others

-- the candidates in the order in which they are added
unfoldable pub candidates : Text → List (Text × Text × Text)
unfolding all_lures typing_errors look_alikes
candidates keyword =
    all_lures keyword common_tlds ++ typing_errors keyword ++ look_alikes keyword homoglyphs

-- `len(variants) < limit` before a look-alike is also the first test of `add`.
unfoldable pub generate_domain_variants : TargetProfile → ℕ → List DomainVariation
unfolding add_all candidates
generate_domain_variants profile limit =
    take limit (add_all profile limit (candidates profile.brand_keyword) [])
