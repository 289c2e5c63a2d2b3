-- ===== src/Call/Row.antt =====
-- src/oreeai_notetaker/models/call.py: a row of `calls`, and what `setattr` writes to it.
-- A UUID is the number of its 128 bits; a time is a number of microseconds; a float is a number of
-- millionths.
use oreeai_notetaker.Prelude.{ℕ, ℤ, Bool, List, [], ◌∷◌, Option, none, some, String}
use oreeai_notetaker.Call.Status.{CallPlatform, CallStatus}

-- `SpeakerSegment` of integrations/transcription/base.py, which the JSON column holds as a dict.
pub record SpeakerSegment : Type 0 where
  pub speaker : String
  pub start : ℤ
  pub end : ℤ
  pub text : String

pub record Call : Type 0 where
  pub id : ℕ
  pub created_at : ℕ
  pub updated_at : ℕ
  pub meeting_url : String
  pub user_ref : String
  pub consent_ack : Bool
  pub platform : CallPlatform
  pub status : CallStatus
  pub failure_reason : Option String
  pub end_reason : Option String
  pub audio_url : Option String
  pub transcript : Option (List SpeakerSegment)
  pub webhook_url : String
  pub webhook_secret : String
  pub webhook_delivered_at : Option ℕ
  pub webhook_attempts : ℕ
  pub bot_container_name : Option String

-- One entry, other than `status`, of the dict that `BaseRepository.update` is given.
pub data Change : Type 0 where
  set_failure_reason set_end_reason set_audio_url set_bot_container_name : String → Change
  set_transcript : List SpeakerSegment → Change

abbrev pub set_attr : Change → Call → Call
set_attr (set_failure_reason r) c = record c { failure_reason = some r }
set_attr (set_end_reason r) c = record c { end_reason = some r }
set_attr (set_audio_url u) c = record c { audio_url = some u }
set_attr (set_bot_container_name n) c = record c { bot_container_name = some n }
set_attr (set_transcript t) c = record c { transcript = some t }

abbrev pub set_attrs : List Change → Call → Call
set_attrs [] c = c
set_attrs (x ∷ xs) c = set_attrs xs (set_attr x c)

-- The entry `status`, if there is one.
abbrev pub set_status : Option CallStatus → Call → Call
set_status none c = c
set_status (some s) c = record c { status = s }

-- What became of a call: the fields that its lifecycle writes.
pub record Fate : Type 0 where
  pub status : CallStatus
  pub failure_reason : Option String
  pub end_reason : Option String
  pub audio_url : Option String
  pub transcript : Option (List SpeakerSegment)

abbrev pub fate_of : Call → Fate
fate_of c = record {
  status = c.status;
  failure_reason = c.failure_reason;
  end_reason = c.end_reason;
  audio_url = c.audio_url;
  transcript = c.transcript;
}
