-- ===== src/Security/Auth.antt =====
-- packages/seclab-core/src/seclab/security/auth.py and keys.py: who a request comes from. `hmac`
-- stands for the keyed SHA-256 of the standard library, by the pepper and the text, in hex.
pub mod Access
use seclab.Prelude.{
  Bool, true, false, not, ◌&&◌, ◌||◌, Option, none, some, List, ◌++◌, find, ltb, ◌==◌,
  if◌then◌else◌,
}
use seclab.Prelude.Text.{Text, codes, is_empty, text_eq}
use seclab.Security.Models.{Result, http_error, User, role_rank}
use seclab.Db.{Exec, pure, raise, lift, ◌>>=◌, gets}

module _ (hmac : Text → Text → Text) (api_key_pepper : Text) where
  unfoldable pub hash_api_key : Text → Text
  hash_api_key raw_key = hmac api_key_pepper raw_key

  -- the row that the digest of the token finds
  unfoldable pub user_for : Text → List User → Option User
  unfolding hash_api_key
  user_for token users = find (λ u. u.api_key_hash == hash_api_key token) users

  unfoldable pub admit : Option User → Exec User
  admit none = raise (http_error 401 (codes "Invalid or inactive API key."))
  admit (some user) =
      if user.is_active
      then pure user
      else raise (http_error 401 (codes "Invalid or inactive API key."))

  -- the token of the header, if there is one
  unfoldable pub get_current_user : Option Text → Exec User
  unfolding admit
  get_current_user none = raise (http_error 401 (codes "Missing authentication token."))
  get_current_user (some token) =
      if is_empty token
      then raise (http_error 401 (codes "Missing authentication token."))
      else do user ← gets (λ s. user_for token s.users); admit user

  unfoldable pub require_role : Text → Option Text → Exec User
  require_role minimum_role credentials = do
    user ← get_current_user credentials
    have ← lift (role_rank user.role)
    required ← lift (role_rank minimum_role)
    if ltb have required
        then raise
            (http_error 403 (codes "Role '" ++ minimum_role ++ codes "' or higher required."))
        else pure user
