-- ===== src/Sensor/Geoip.antt =====
-- packages/modules/sensor_chimera/src/seclab_sensor_chimera/geoip.py: the cache of locations.
-- The ordered dict is a list of its entries with the end of the dict in front. A look-up is given
-- the two readings of the clock, in nanoseconds, and the reply of the provider, whose fields are
-- there only if they are texts; `isprintable` is the method of `str` on one character.
use seclab.Prelude.{
  ℕ, ◌-◌, ◌*◌, Bool, not, Option, none, some, List, [], ◌∷◌, length, ltb, find, select, take, ◌==◌,
  if◌then◌else◌,
}
use seclab.Prelude.Text.{Text, codes, lower, text_eq}

abbrev pub cache_ttl : ℕ
cache_ttl = 300 * 1000000000

abbrev pub max_field_len : ℕ
max_field_len = 80

abbrev pub max_cache_entries : ℕ
max_cache_entries = 2048

pub record Location : Type 0 where
  pub country : Text
  pub country_code : Text
  pub city : Text
  pub isp : Text

pub record Entry : Type 0 where
  pub ip : Text
  pub stored : ℕ
  pub location : Location

pub data Reply : Type 0 where
  raised : Reply
  not_a_dict : Reply
  replied : (Text → Option Text) → Reply

unfoldable pub remove : Text → List Entry → List Entry
remove ip cache = select (λ e. not (e.ip == ip)) cache

-- `popitem(last=False)`
unfoldable pub drop_last : List Entry → List Entry
drop_last [] = []
drop_last (e ∷ cache) =
    let rest = drop_last cache in elim cache [ [] ↦ [] | next ∷ others ↦ e ∷ rest ]

-- `self._cache[ip] = ...`, `move_to_end` and the bound
unfoldable pub put : Entry → List Entry → List Entry
unfolding remove drop_last
put entry cache =
    let grown = entry ∷ remove entry.ip cache in
    if ltb max_cache_entries (length grown) then drop_last grown else grown

-- `move_to_end(ip)`
unfoldable pub touch : Text → Entry → List Entry → List Entry
unfolding remove
touch ip entry cache = entry ∷ remove ip cache

module _ (isprintable : ℕ → Bool) where
  -- `text or "Unknown"`
  abbrev or_unknown : Text → Text
  or_unknown [] = codes "Unknown"
  or_unknown (c ∷ s) = c ∷ s

  unfoldable pub clamp : Option Text → Text
  clamp none = codes "Unknown"
  clamp (some value) = or_unknown (take max_field_len (select isprintable value))

  unfoldable pub location_of : (Text → Option Text) → Location
  unfolding clamp
  location_of raw = record {
    country = clamp (raw (codes "country_name"));
    country_code = lower (take 2 (clamp (raw (codes "country_code"))));
    city = clamp (raw (codes "city"));
    isp = clamp (raw (codes "org"));
  }

  -- the look-up behind the cache
  unfoldable pub fetched : Text → ℕ → Reply → List Entry → List Entry × Option Location
  unfolding location_of put
  fetched ip now raised cache = (cache, none)
  fetched ip now not_a_dict cache = (cache, none)
  fetched ip now (replied raw) cache =
      let location = location_of raw in
      (put (record { ip = ip; stored = now; location = location }) cache, some location)

  unfoldable pub from_cache :
      Option Entry → Text → ℕ → Reply → ℕ → List Entry → List Entry × Option Location
  unfolding touch fetched
  from_cache none ip asked reply now cache = fetched ip now reply cache
  from_cache (some entry) ip asked reply now cache =
      let missed = fetched ip now reply cache in
      if ltb (asked - entry.stored) cache_ttl
      then (touch ip entry cache, some entry.location)
      else missed

  -- `lookup`; `none` is the empty dict
  unfoldable pub lookup : Text → ℕ → Reply → ℕ → List Entry → List Entry × Option Location
  unfolding from_cache
  lookup ip asked reply now cache =
      from_cache (find (λ e. e.ip == ip) cache) ip asked reply now cache
