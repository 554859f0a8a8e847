-- ===== src/Db/Models.antt =====
-- internal/db/models.go. A pgtype value with `Valid` false is `none`, whatever its other field; a
-- UUID is its 16 bytes as a number, a time is in nanoseconds. Numerics, byte slices and raw JSON,
-- which the services hand on unread, are texts.
use openlocalcrm.Base.{ℕ, String, Bool, Option}
use openlocalcrm.Base.Ints.{ℤ}

abbrev pub Uuid : Type 0
Uuid = Option ℕ

abbrev pub PgText : Type 0
PgText = Option String

abbrev pub PgTime : Type 0
PgTime = Option ℕ

pub record AuditLog : Type 0 where
  pub id : Uuid
  pub user_id : Uuid
  pub entity_type : String
  pub entity_id : Uuid
  pub action : String
  pub changes : String
  pub ip_address : PgText
  pub user_agent : PgText
  pub created_at : PgTime
  pub old_values : String
  pub new_values : String
  pub prev_hash : PgText
  pub hash : PgText

pub record Deal : Type 0 where
  pub id : Uuid
  pub title : String
  pub company_id : Uuid
  pub contact_id : Uuid
  pub value : String
  pub currency : String
  pub stage : String
  pub probability : ℤ
  pub assigned_to : Uuid
  pub closed_at : PgTime
  pub custom_fields : String
  pub created_at : PgTime
  pub updated_at : PgTime
  pub widerrufen_at : PgTime
  pub widerruf_grund : PgText
  pub tags : String

pub record RefreshToken : Type 0 where
  pub id : Uuid
  pub user_id : Uuid
  pub token_hash : String
  pub user_agent : PgText
  pub ip_address : PgText
  pub expires_at : PgTime
  pub created_at : PgTime
  pub family_id : Uuid
  pub used_at : PgTime

pub record User : Type 0 where
  pub id : Uuid
  pub email : String
  pub password_hash : String
  pub first_name : String
  pub last_name : String
  pub role : String
  pub status : String
  pub totp_secret_encrypted : PgText
  pub totp_enabled : Bool
  pub last_login_at : PgTime
  pub created_at : PgTime
  pub updated_at : PgTime
  pub totp_last_used_step : ℕ
  pub token_version : ℕ
  pub must_change_password : Bool

pub record UserInvite : Type 0 where
  pub id : Uuid
  pub user_id : Uuid
  pub token_hash : String
  pub created_by : Uuid
  pub expires_at : PgTime
  pub consumed_at : PgTime
  pub revoked_at : PgTime
  pub created_at : PgTime

pub record Workflow : Type 0 where
  pub id : String
  pub name : String
  pub description : String
  pub trigger_type : String
  pub target_type : String
  pub is_active : Bool
  pub steps_json : String
  pub created_at : PgTime
  pub updated_at : PgTime

-- `current_step` is the bit pattern of an int32.
pub record WorkflowRun : Type 0 where
  pub id : String
  pub workflow_id : String
  pub target_id : String
  pub target_type : String
  pub target_name : String
  pub status : String
  pub current_step : ℕ
  pub snapshot_json : String
  pub started_at : PgTime
  pub completed_at : PgTime

pub record Todo : Type 0 where
  pub id : Uuid
  pub title : String
  pub description : PgText
  pub due_date : PgTime
  pub status : String
  pub priority : String
  pub assigned_to : Uuid
  pub contact_id : Uuid
  pub deal_id : Uuid
  pub created_at : PgTime
  pub updated_at : PgTime

pub record Notification : Type 0 where
  pub id : Uuid
  pub user_id : Uuid
  pub kind : String
  pub title : String
  pub message : String
  pub link : PgText
  pub is_read : Bool
  pub created_at : PgTime
