-- ===== src/Security/Models.antt =====
-- packages/seclab-core/src/seclab/security/models.py: the tables of the security core.
-- Columns with `StrEnum` values that only the program writes are data types. `required_role`,
-- `role` and `approver_role` stay texts, since `role_rank` is asked about any text. A row's time
-- stamps are seconds since the epoch. Row ids are kept where the program reads them.
use seclab.Prelude.{
  ap, ◌⊎◌, inl, inr, Bool-cases, ℕ, ◌≡◌, refl, ◌↔◌, Bool, true, false, Option, List, ◌==◌, Eq,
  arith, if◌then◌else◌,
}
use seclab.Prelude.Text.{Text, codes, text_eq}

pub data Error : Type 0 where
  -- `HTTPException(status_code, detail)`
  http_error : ℕ → Text → Error
  -- a `ValueError` that nothing catches
  value_error : Error
  -- the database refuses a row that breaks a unique column
  integrity_error : Error

pub data Result {ℓ} (A : Type ℓ) : Type ℓ where
  ok : A → Result A
  err : Error → Result A

pub ok_injective : {A : Type 0} (a b : A) → ok a ≡ ok b → a ≡ b
ok_injective a b e = ap (λ (r : Result _). elim r [ ok x ↦ x | err _ ↦ a ]) e

abbrev pub map_ok {ℓ κ} : {A : Type ℓ} {B : Type κ} → (A → B) → Result A → Result B
map_ok f (ok a) = ok (f a)
map_ok f (err e) = err e

abbrev pub analyst : Text
analyst = codes "analyst"

abbrev pub security_lead : Text
security_lead = codes "security_lead"

-- The lookup in `_ROLE_RANK`; a missing key is turned into a `ValueError`.
unfoldable pub role_rank : Text → Result ℕ
role_rank role =
    if role == analyst then ok 1 else if role == security_lead then ok 2 else err value_error

pub role_rank_cases :
    (role : Text) → ((n : ℕ) × (role_rank role ≡ ok n)) ⊎ (role_rank role ≡ err value_error)
unfolding role_rank
role_rank_cases role = elim (Bool-cases (role == analyst)) [
  | inl e ↦ inl (1, rw e refl)
  | inr e ↦ elim (Bool-cases (role == security_lead)) [
    | inl lead ↦ inl (2, rw (e, lead) refl)
    | inr other ↦ inr (rw (e, other) refl)
  ]
]

pub record User : Type 0 where
  pub username : Text
  pub role : Text
  pub api_key_hash : Text
  pub is_active : Bool

-- A `datetime`: one without a time zone, as SQLite returns it, or one with a zone, by its instant
-- in UTC.
pub data Datetime : Type 0 where
  naive aware : ℕ → Datetime

-- Values of the JSON columns.
pub data Json : Type 0 where
  null : Json
  text : Text → Json
  number : ℕ → Json
  -- `isoformat()` of a time stamp
  instant : Datetime → Json

pub record AuditLog : Type 0 where
  pub event_type : Text
  pub entity_type : Text
  pub entity_id : Option Text
  pub actor : Text
  pub decision : Text
  pub reason : Text
  pub metadata : List (Text × Json)
  pub created_at : ℕ

pub record EvidenceArtifact : Type 0 where
  pub source_module : Text
  pub subject_type : Text
  pub subject_id : Text
  pub evidence_type : Text
  pub content : Text
  pub content_format : Text
  pub content_sha256 : Text
  pub artifact_uri : Option Text
  pub metadata : List (Text × Json)
  pub created_at : ℕ

pub data ApprovalStatus : Type 0 where
  pending approved rejected expired : ApprovalStatus

abbrev pub same_status : ApprovalStatus → ApprovalStatus → Bool
same_status pending pending = true
same_status approved approved = true
same_status rejected rejected = true
same_status expired expired = true
same_status _ _ = false

pub same_status_iff : (a b : ApprovalStatus) → (same_status a b ≡ true) ↔ (a ≡ b)
same_status_iff a b = ground arith

instance abbrev pub status_eq : Eq ApprovalStatus
status_eq = record { test = same_status; test_iff = same_status_iff }

pub record ApprovalRequest : Type 0 where
  pub id : ℕ
  pub subject_type : Text
  pub subject_id : Text
  pub required_role : Text
  pub requested_by : Text
  pub request_rationale : Text
  pub approver : Option Text
  pub approver_role : Option Text
  pub status : ApprovalStatus
  pub decision_reason : Option Text
  pub created_at : ℕ
  pub expires_at : Option Datetime
  pub decided_at : Option ℕ
