-- ===== src/Sensor/App.antt =====
-- packages/modules/sensor_chimera/src/seclab_sensor_chimera: detection.py, decoys.py and app.py.
-- `isprintable` is the method of `str` on one character, `json_dumps` that of `json` on an object
-- of texts, `randint` the random delay and `publish` the event bus, which Core/Events models. The
-- patterns of the user agents have no special character, so that a search for one without regard
-- to case is a search in the text in lower case. The rate limiter is a third party's.
use seclab.Prelude.{
  ℕ, ◌+◌, Bool, Option, none, some, List, [], ◌∷◌, ◌++◌, any, select, take, ◌||◌, if◌then◌else◌,
}
use seclab.Prelude.Text.{Text, codes, contains, lower}
use seclab.Reporting.{str_of_bool}
use seclab.Core.Events.{Event, World}
use seclab.Sensor.Geoip.{Location, Entry, Reply, lookup}

abbrev pub suspicious_ua_patterns : List Text
suspicious_ua_patterns =
    codes "sqlmap"
    ∷ codes "nmap"
    ∷ codes "nikto"
    ∷ codes "dirbuster"
    ∷ codes "gobuster"
    ∷ codes "zgrab"
    ∷ codes "masscan"
    ∷ codes "python-requests"
    ∷ []

abbrev pub sensitive_path_markers : List Text
sensitive_path_markers =
    codes "env"
    ∷ codes "aws"
    ∷ codes "git"
    ∷ codes "config"
    ∷ codes "secret"
    ∷ codes "iam"
    ∷ codes "credentials"
    ∷ codes "settings"
    ∷ []

unfoldable pub is_suspicious_ua : Text → Bool
is_suspicious_ua user_agent = any (λ p. contains p (lower user_agent)) suspicious_ua_patterns

unfoldable pub touches_sensitive_path : Text → Bool
touches_sensitive_path path_lower = any (λ m. contains m path_lower) sensitive_path_markers

unfoldable pub sanitize_input : (ℕ → Bool) → Text → Text
sanitize_input isprintable text = take 500 (select isprintable text)

unfoldable pub aws_credentials_decoy : Text → List (Text × Text)
aws_credentials_decoy now =
    (codes "Code", codes "Success")
    ∷ (codes "LastUpdated", now ++ codes "Z")
    ∷ (codes "Type", codes "AWS-HMAC")
    ∷ (codes "AccessKeyId", codes "ASIAV7XM6XN7H4Q3Z8J2")
    ∷ (codes "SecretAccessKey", codes "wJalrXUtnFEMI/K7MDENG/bPxRfiCYEXAMPLEKEY")
    ∷ []

unfoldable pub dotenv_decoy : Text
dotenv_decoy =
    codes "DB_HOST=10.0.5.22\n"
    ++ (codes "DB_USER=root\n"
        ++ (codes "DB_PASS=P@ssw0rd_Chimera\n" ++ codes "STRIPE_LIVE_KEY=sk_live_51NbV3qL9Q7\n"))

unfoldable pub git_config_decoy : Text
git_config_decoy =
    codes "[remote \"origin\"]\n"
    ++ (codes "\turl = https://github.com/chimera-prod/internal-infra.git\n"
        ++ codes "\tfetch = +refs/heads/*:refs/remotes/origin/*")

pub data Decoy : Type 0 where
  aws_credentials git_config dotenv no_decoy : Decoy

-- the choice at the end of `catch_all`
unfoldable pub decoy_for : Text → Decoy
decoy_for path_lower =
    if any (λ m. contains m path_lower) (codes "aws" ∷ codes "iam" ∷ codes "credentials" ∷ [])
    then aws_credentials
    else if contains (codes ".git/config") path_lower
    then git_config
    else if any (λ m. contains m path_lower)
        (codes "env" ∷ codes "config" ∷ codes "secret" ∷ codes "settings" ∷ [])
    then dotenv
    else no_decoy

pub record Request : Type 0 where
  pub client : Option Text
  pub user_agent : Option Text
  pub method : Text
  pub full_path : Text

pub record Response : Type 0 where
  pub content : Text
  pub media_type : Text

-- `value or default` of an optional text
abbrev pub or_default : Option Text → Text → Text
or_default none text = text
or_default (some t) text = t

-- `geo.get(key, "Unknown")`
abbrev pub geo_get : (Location → Text) → Option Location → Text
geo_get key none = codes "Unknown"
geo_get key (some location) = key location

-- The cache of the locations, the event bus, and the time in seconds, to which only the delays
-- are added.
pub record Trap : Type 0 where
  pub cache : List Entry
  pub world : World
  pub clock : ℕ

-- `await asyncio.sleep(delay)`, and the time behind it
unfoldable pub sleep : Option ℕ → ℕ → ℕ
sleep none clock = clock
sleep (some delay) clock = clock + delay

module _ (isprintable : ℕ → Bool) (json_dumps : List (Text × Text) → Text) where
  unfoldable pub response_for : Text → Decoy → Response
  unfolding aws_credentials_decoy git_config_decoy dotenv_decoy
  response_for now aws_credentials = record {
    content = json_dumps (aws_credentials_decoy now);
    media_type = codes "application/json";
  }
  response_for now git_config = record {
    content = git_config_decoy;
    media_type = codes "text/plain";
  }
  response_for now dotenv = record { content = dotenv_decoy; media_type = codes "text/plain" }
  response_for now no_decoy = record {
    content = codes "{\"status\": \"success\", \"data\": null}";
    media_type = codes "application/json";
  }

  unfoldable pub clean_path_of : Request → Text
  unfolding sanitize_input
  clean_path_of request = sanitize_input isprintable (b'/' ∷ request.full_path)

  unfoldable pub is_suspicious : Request → Bool
  unfolding is_suspicious_ua touches_sensitive_path sanitize_input clean_path_of
  is_suspicious request =
      is_suspicious_ua
        (sanitize_input isprintable (or_default request.user_agent (codes "Unknown")))
      || touches_sensitive_path (lower (clean_path_of request))

  unfoldable pub event_of : Request → Option Location → Text → Event
  unfolding is_suspicious clean_path_of sanitize_input
  event_of request geo now =
      let suspicious = is_suspicious request in
      let client_ip = or_default request.client (codes "unknown") in
      let clean_path = clean_path_of request in
      record {
        source = codes "sensor_chimera";
        kind = codes "trap_triggered";
        summary =
            (if suspicious then codes "Suspicious" else codes "Probe")
            ++ (codes " hit on " ++ (clean_path ++ (codes " from " ++ client_ip)));
        severity = if suspicious then codes "critical" else codes "warning";
        payload =
            (codes "ip", client_ip)
            ∷ (codes "path", clean_path)
            ∷ (codes "method", request.method)
            ∷ (
              codes "user_agent",
              sanitize_input isprintable (or_default request.user_agent (codes "Unknown")),
            )
            ∷ (codes "suspicious", str_of_bool suspicious)
            ∷ (codes "country", geo_get (λ l. l.country) geo)
            ∷ (codes "city", geo_get (λ l. l.city) geo)
            ∷ (codes "isp", geo_get (λ l. l.isp) geo)
            ∷ [];
        occurred_at = now;
      }

  -- The delay, if the request is held up.
  unfoldable pub tarpit : (ℕ → ℕ → ℕ) → ℕ → ℕ → Request → Option ℕ
  unfolding is_suspicious
  tarpit randint min_seconds max_seconds request =
      if is_suspicious request || touches_sensitive_path (lower (clean_path_of request))
      then some (randint min_seconds max_seconds)
      else none

  -- `catch_all`: the look-up, the delay, the event and the answer. `asked` and `stored` are the
  -- readings of the monotonic clock before and behind the look-up.
  unfoldable pub catch_all :
      (Event → World → World)
      → (ℕ → ℕ → ℕ)
      → (ℕ → Text)
      → ℕ
      → ℕ
      → Request
      → ℕ
      → Reply
      → ℕ
      → Trap
      → Trap × Response
  unfolding event_of response_for decoy_for tarpit sleep
  catch_all publish randint isoformat min_seconds max_seconds request asked reply stored trap =
      let (after, geo) =
        lookup isprintable (or_default request.client (codes "unknown")) asked reply stored
          trap.cache in
      let now = sleep (tarpit randint min_seconds max_seconds request) trap.clock in
      (
        record {
          cache = after;
          world = publish (event_of request geo (isoformat now)) trap.world;
          clock = now;
        },
        response_for (isoformat now) (decoy_for (lower (clean_path_of request))),
      )
