-- ===== src/Schema.antt =====
-- src/oreeai_notetaker/schemas/call.py: what the API takes and what it answers with.
pub mod Validate
use oreeai_notetaker.Prelude.{ℕ, Bool, List, Option, String}
use oreeai_notetaker.Call.{Call, CallPlatform, CallStatus, SpeakerSegment}

-- A validated `CallCreate`.
pub record CallCreate : Type 0 where
  pub meeting_url : String
  pub user_ref : String
  pub consent_ack : Bool
  pub webhook_url : String
  pub webhook_secret : String
  pub platform : Option CallPlatform

pub record CallCreated : Type 0 where
  pub call_id : ℕ
  pub status : CallStatus

pub record CallRead : Type 0 where
  pub id : ℕ
  pub meeting_url : String
  pub user_ref : String
  pub consent_ack : Bool
  pub platform : CallPlatform
  pub status : CallStatus
  pub failure_reason : Option String
  pub end_reason : Option String
  pub audio_url : Option String
  pub transcript : Option (List SpeakerSegment)
  pub webhook_url : String
  pub webhook_delivered_at : Option ℕ
  pub webhook_attempts : ℕ
  pub bot_container_name : Option String
  pub created_at : ℕ
  pub updated_at : ℕ

-- `CallRead.model_validate(call)`
abbrev pub model_validate : Call → CallRead
model_validate c = record {
  id = c.id;
  meeting_url = c.meeting_url;
  user_ref = c.user_ref;
  consent_ack = c.consent_ack;
  platform = c.platform;
  status = c.status;
  failure_reason = c.failure_reason;
  end_reason = c.end_reason;
  audio_url = c.audio_url;
  transcript = c.transcript;
  webhook_url = c.webhook_url;
  webhook_delivered_at = c.webhook_delivered_at;
  webhook_attempts = c.webhook_attempts;
  bot_container_name = c.bot_container_name;
  created_at = c.created_at;
  updated_at = c.updated_at;
}
