-- ===== src/Security/Auth/Access.antt =====
-- Whom the dependencies of auth.py let in.
use seclab.Prelude.{
  ℕ, ◌≡◌, ◌≤◌, refl, sym, ap, ◌∙◌, true, false, Option, none, some, ◌++◌, ◌⊎◌, arith, ltb, Any,
  find-some, find-Any, Bool-cases, Option-cases, inl, inr, if◌then◌else◌,
}
use seclab.Prelude.Text.{Text, codes, is_empty, text_eq, text_beq_iff}
use seclab.Security.Models.{Result, ok, err, Error, http_error, User, role_rank, role_rank_cases}
use seclab.Db.{Session, raise, pure, lift, ◌>>=◌, gets}
use seclab.Db.Runs.{bind-ok, bind-err}
use seclab.Security.Auth.{hash_api_key, user_for, get_current_user, require_role}

Result-cases : {A : Type 0} (r : Result A) → ((a : A) × (r ≡ ok a)) ⊎ ((e : Error) × (r ≡ err e))
Result-cases (ok a) = inl (a, refl)
Result-cases (err e) = inr (e, refl)

-- the comparison of ranks behind the authentication
entitled_user :
    (minimum_role : Text) (u user : User) (s : Session)
    → ((do
      have ← lift (role_rank u.role)
      required ← lift (role_rank minimum_role)
      if ltb have required
          then raise
              (http_error 403 (codes "Role '" ++ minimum_role ++ codes "' or higher required."))
          else pure u)
        s).1
      ≡ ok user
    → (u ≡ user)
      × ((have : ℕ) × (required : ℕ) × (role_rank u.role ≡ ok have)
          × (role_rank minimum_role ≡ ok required)
          × (required ≤ have))
unfolding ◌>>=◌ lift raise pure
entitled_user minimum_role u user s h = elim (role_rank_cases u.role) [
  | inr unknown ↦ absurd (ground (arith, h, unknown))
  | inl (have, ranked) ↦ elim (role_rank_cases minimum_role) [
    | inr unknown ↦ absurd (ground (arith, h, ranked, unknown))
    | inl (required, asked) ↦ elim (Bool-cases (ltb have required)) [
      | inl low ↦ absurd (ground (arith, h, ranked, asked, low))
      | inr enough ↦ (
        ground (arith, h, ranked, asked, enough),
        (have, required, ranked, asked, ground (arith, enough)),
      )
    ]
  ]
]

module _ (hmac : Text → Text → Text) (api_key_pepper : Text) where
  -- The user is in the table, is active, and is stored with the digest of a token that was sent.
  pub record IsAuthenticated (s : Session) (credentials : Option Text) (user : User) : Type 0 where
    pub token : Text
    pub sent : credentials ≡ some token
    pub given : is_empty token ≡ false
    pub listed : Any (λ u. u ≡ user) s.work.users
    pub digest : user.api_key_hash ≡ hash_api_key hmac api_key_pepper token
    pub active : user.is_active ≡ true

  -- A request is taken to come from a user only if its token is not empty and its digest is stored
  -- with that user, who is active.
  pub get_current_user-IsAuthenticated :
      (s : Session) (credentials : Option Text) (user : User)
      → (get_current_user hmac api_key_pepper credentials s).1 ≡ ok user
      → IsAuthenticated s credentials user
  unfolding get_current_user raise ◌>>=◌ gets pure
  get_current_user-IsAuthenticated s none user h = absurd (ground (arith, h))
  get_current_user-IsAuthenticated s (some token) user h = elim (Bool-cases (is_empty token)) [
    | inl blank ↦ absurd (ground (arith, h, blank))
    | inr given ↦ elim (Option-cases (user_for hmac api_key_pepper token s.work.users)) [
      | inl unknown ↦ absurd (ground (arith, h, given, unknown))
      | inr (u, found) ↦ elim (Bool-cases u.is_active) [
        | inr idle ↦ absurd (ground (arith, h, given, found, idle))
        | inl active ↦
            let same : u ≡ user = ground (arith, h, given, found, active) in
            rw (← same) (record {
              token = token;
              sent = refl;
              given = given;
              listed = unfold user_for in find-Any _ s.work.users u found;
              digest = unfold user_for in (text_beq_iff _ _).0 (find-some _ s.work.users u found);
              active = active;
            })
      ]
    ]
  ]

  -- A route behind `require_role` is served only for an authenticated user of a known role that
  -- ranks at least as high as the role that the route asks for, which is a known one.
  pub require_role-IsAuthenticated :
      (minimum_role : Text) (s : Session) (credentials : Option Text) (user : User)
      → (require_role hmac api_key_pepper minimum_role credentials s).1 ≡ ok user
      → IsAuthenticated s credentials user
        × ((have : ℕ) × (required : ℕ) × (role_rank user.role ≡ ok have)
            × (role_rank minimum_role ≡ ok required)
            × (required ≤ have))
  unfolding require_role
  require_role-IsAuthenticated minimum_role s credentials user h =
      elim (Result-cases (get_current_user hmac api_key_pepper credentials s).1) [
        | inr (e, refused) ↦
            let raised : err e ≡ ok user =
              sym (
                ap (λ (p : Session × Result User). p.1)
                  (bind-err (get_current_user hmac api_key_pepper credentials) _ s e refused))
              ∙ h in
            absurd (ground (arith, raised))
        | inl (u, found) ↦
            let (same, entitled) =
              entitled_user minimum_role u user
                (get_current_user hmac api_key_pepper credentials s).0
                (sym (
                    ap (λ (p : Session × Result User). p.1)
                      (bind-ok (get_current_user hmac api_key_pepper credentials) _ s u found))
                  ∙ h) in
            (
              get_current_user-IsAuthenticated s credentials user (ground (arith, found, same)),
              rw same at entitled,
            )
      ]
