-- ===== src/Tests/Data.antt =====
-- Calls, tables and an environment to run the worker in (src/oreeai_notetaker/workers/).
use oreeai_notetaker.Prelude.{ℕ, true, false, [], ◌∷◌, none, some, ◌<>◌, show_nat, arith, pos, ◌+◌}
use oreeai_notetaker.Call.{
  Call, CallStatus, google_meet, queued, recording, failed, SpeakerSegment, Table,
}
use oreeai_notetaker.Schema.{CallCreate}
use oreeai_notetaker.Webhook.{Codec, response}
use oreeai_notetaker.Storage.{ObjectStorageClient, stored}
use oreeai_notetaker.Transcription.{TranscriptionClient, transcribed}
use oreeai_notetaker.World.{Settings, Env, World, built}
use oreeai_notetaker.Runner.Contract.{IsTyped}

abbrev pub codec : Codec
codec = record {
  uuid_text = show_nat;
  isoformat = show_nat;
  dumps = λ p. p.status <> "/" <> p.call_id;
  hmac_sha256 = λ key message. key <> "|" <> message;
}

abbrev pub a_call : ℕ → CallStatus → Call
a_call i s = record {
  id = i;
  created_at = 1;
  updated_at = 2;
  meeting_url = "https://meet.google.com/abc-defg-hij";
  user_ref = "u1";
  consent_ack = true;
  platform = google_meet;
  status = s;
  failure_reason = none;
  end_reason = none;
  audio_url = none;
  transcript = none;
  webhook_url = "https://example.org/hook";
  webhook_secret = "a secret of thirty-two characters";
  webhook_delivered_at = none;
  webhook_attempts = 0;
  bot_container_name = some "oreeai-bot-7";
}

abbrev pub queued_call : Call
queued_call = record (a_call 9 queued) { bot_container_name = none }

abbrev pub recorded_call : Call
recorded_call = a_call 7 recording

abbrev pub failed_call : Call
failed_call = record (a_call 8 failed) {
  failure_reason = some "upload_failed";
  audio_url = some "s3://b/calls/8/audio.wav";
}

abbrev pub table : Table
table = recorded_call ∷ failed_call ∷ queued_call ∷ []

abbrev pub create_request : CallCreate
create_request = record {
  meeting_url = "https://meet.google.com/abc-defg-hij";
  user_ref = "u2";
  consent_ack = true;
  webhook_url = "https://example.org/hook";
  webhook_secret = "a secret of thirty-two characters";
  platform = some google_meet;
}

abbrev pub storage : ObjectStorageClient
storage = record {
  upload_audio = λ at i path. stored ("s3://b/calls/" <> show_nat i <> "/audio.wav");
  delete_audio = λ at i. stored tt;
  presigned_url = λ at i ttl. stored "https://b/x";
  transcribable_source = λ at i ttl.
      stored (record { url = some "https://b/x"; local_path = none; size_bytes = 1000 });
}

abbrev pub one_segment : SpeakerSegment
one_segment = record { speaker = "S0"; start = pos 0; end = pos 1500000; text = "hello" }

abbrev pub transcriber : TranscriptionClient
transcriber = record {
  transcribe = λ at source. transcribed (record { segments = one_segment ∷ [] });
}

abbrev pub settings : Settings
settings = record {
  call_concurrency_limit = 2;
  bot_image_tag = "latest";
  bot_docker_network = "net";
  bot_max_record_duration = 10800;
  audio_host_path = "/srv/audio";
  webhook_max_attempts = 5;
  s3_presign_ttl_seconds = 3600;
  audio_retention_days = 30;
  failed_audio_retention_days = 7;
  audio_max_bytes = 2000;
}

abbrev pub env : Env
env = record {
  settings = settings;
  codec = codec;
  func_now = λ at. 10000000000000 + at;
  wall_clock = λ at. 10000000000000 + at;
  post = λ at attempt. response 200 77;
  storage = built storage;
  transcription = built transcriber;
  disk_free = λ at. some 1000000000000;
  unlink_fails = λ i. false;
  locked = λ at i. false;
}

abbrev pub world : World
world = record { table = table; scratch = 7 ∷ []; tick = 0; trace = [] }

pub env-IsTyped : IsTyped env
env-IsTyped = record {
  uploads = λ client e at i path. ground arith;
  sources = λ client e at i ttl. ground arith;
  answers = λ client e at source. ground arith;
}
