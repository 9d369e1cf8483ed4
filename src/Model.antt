-- ===== src/Model.antt =====
-- The data of post.go, schedule.go, credential.go, oauth.go and router.go: rows and their tables.
-- A `time.Time` is a number of nanoseconds, and a NULL column is `none`.
pub mod Status
pub mod Errors
pub mod Http
pub mod Zone
pub use Status.{
  PostStatus, draft, scheduled, published, failed, archived, queued, other_status, Platform,
  mastodon, linkedin, x_twitter, other_platform,
}
use social.Prelude.Int.{ℤ}
use social.Prelude.{ℕ, String, Option, List}

abbrev pub Time : Type 0
Time = ℕ

pub record ScheduledPost : Type 0 where
  pub id : String
  pub platform : Platform
  pub credential_id : String
  pub body : String
  pub media_url : String
  pub alt_text : String
  pub scheduled_at : Option Time
  pub status : PostStatus
  pub platform_post_id : String
  pub error_msg : String
  pub created_at : Time
  pub updated_at : Time

-- A row of smeldr_social_delivery_log.
pub record DeliveryAttempt : Type 0 where
  pub id : String
  pub post_id : String
  pub attempt : ℕ
  pub status_code : ℕ
  pub error : String
  pub attempted_at : Time

pub record Slot : Type 0 where
  pub weekday : ℤ
  pub time : String
  pub timezone : String

pub data ScheduleStatus : Type 0 where
  active paused : ScheduleStatus

pub record PublicationSchedule : Type 0 where
  pub id : String
  pub credential_id : String
  pub slots : List Slot
  pub status : ScheduleStatus
  pub last_tick_at : Option Time
  pub created_at : Time
  pub updated_at : Time

-- A row of smeldr_social_credentials: the tokens are encrypted.
pub record CredentialRow : Type 0 where
  pub id : String
  pub platform : Platform
  pub name : String
  pub instance_url : String
  pub actor_id : String
  pub enc_access : String
  pub enc_refresh : String
  pub expires_at : Option Time
  pub created_at : Time
  pub updated_at : Time

pub record PlatformCredential : Type 0 where
  pub id : String
  pub platform : Platform
  pub name : String
  pub instance_url : String
  pub actor_id : String
  pub expires_at : Option Time
  pub created_at : Time
  pub updated_at : Time
  pub access_token : String
  pub refresh_token : String

-- A row of smeldr_social_oauth_states.
pub record OauthState : Type 0 where
  pub state : String
  pub platform : Platform
  pub code_verifier : String
  pub created_at : Time

pub data JobStatus : Type 0 where
  pending delivered dead : JobStatus

-- A row of smeldr_social_route_jobs. `dead` is the status text 'failed'.
pub record RouteJob : Type 0 where
  pub id : String
  pub signal : String
  pub content_type : String
  pub agent_url : String
  pub payload : String
  pub status : JobStatus
  pub attempts : ℕ
  pub next_attempt : Option Time
  pub last_error : String
  pub created_at : Time

-- A row of smeldr_social_route_log.
pub record RouteAttempt : Type 0 where
  pub id : String
  pub job_id : String
  pub attempt : ℕ
  pub status_code : ℕ
  pub error : String
  pub attempted_at : Time

-- A row of smeldr_social_platform_config: the configuration is encrypted.
pub record ConfigRow : Type 0 where
  pub platform : String
  pub config : String
  pub updated_at : Time

-- The tables that CreateTables makes.
pub record Db : Type 0 where
  pub posts : List ScheduledPost
  pub delivery_log : List DeliveryAttempt
  pub schedules : List PublicationSchedule
  pub credentials : List CredentialRow
  pub oauth_states : List OauthState
  pub route_jobs : List RouteJob
  pub route_log : List RouteAttempt
  pub platform_configs : List ConfigRow
