-- ===== src/Lifecycle.antt =====
-- src/oreeai_notetaker/services/call.py: `CallService`. A method runs in its caller's transaction:
-- it is given that transaction's `func.now()` and the table, and gives its answer and the new table.
-- After a raise nothing has been written.
pub mod Move
pub mod Runs
pub mod History
pub mod Rows
use oreeai_notetaker.Prelude.{
  ℕ, Bool, false, List, [], ◌∷◌, ◌++◌, Option, none, some, String, leb, if◌then◌else◌, or_default,
}
use oreeai_notetaker.Call.{
  CallPlatform, google_meet, CallStatus, queued, joining, recording, processing, done, failed,
  status_in, Call, Change, SpeakerSegment, Table, get, create, update, count_active,
}
use oreeai_notetaker.Errors.{
  not_found, illegal_transition, concurrency_limit, Result, ok, err, ◌>>=◌,
}
use oreeai_notetaker.Schema.{CallCreate, CallRead, model_validate}

-- `_LEGAL_TRANSITIONS.get(status, frozenset())`
abbrev pub legal_transitions : CallStatus → List CallStatus
legal_transitions queued = joining ∷ failed ∷ []
legal_transitions joining = recording ∷ failed ∷ []
legal_transitions recording = processing ∷ failed ∷ []
legal_transitions processing = done ∷ failed ∷ []
legal_transitions _ = []

abbrev pub require_call : ℕ → Table → Result Call
require_call i t = elim (get i t) [ none ↦ err (not_found i) | some c ↦ ok c ]

unfoldable pub transition : ℕ → Call → CallStatus → List Change → Table → Result (Call × Table)
transition now c new changes t =
    if status_in new (legal_transitions c.status)
    then ok (update now c (some new) changes t)
    else err (illegal_transition c.status new)

-- `_require_call`, `_transition` and the answer, as the methods below put them together.
unfoldable pub move : ℕ → ℕ → CallStatus → List Change → Table → Result (CallRead × Table)
unfolding transition
move now i new changes t = do
  c ← require_call i t
  (c', t') ← transition now c new changes t
  ok (model_validate c', t')

-- The entry that an optional keyword argument adds to `changes`.
abbrev pub given {ℓ} : {A : Type ℓ} → (A → Change) → Option A → List Change
given f none = []
given f (some a) = f a ∷ []

abbrev pub update_status :
    ℕ → ℕ → CallStatus → Option String → Option String → Table → Result (CallRead × Table)
update_status now i new end_reason failure_reason =
    move now i new
      (given Change.set_end_reason end_reason ++ given Change.set_failure_reason failure_reason)

abbrev pub mark_bot_started : ℕ → ℕ → String → Table → Result (CallRead × Table)
mark_bot_started now i name = move now i joining (Change.set_bot_container_name name ∷ [])

abbrev pub mark_recording : ℕ → ℕ → Table → Result (CallRead × Table)
mark_recording now i = move now i recording []

abbrev pub mark_processing : ℕ → ℕ → Table → Result (CallRead × Table)
mark_processing now i = move now i processing []

abbrev pub mark_done :
    ℕ
    → ℕ
    → String
    → Option (List SpeakerSegment)
    → Option String
    → Table
    → Result (CallRead × Table)
mark_done now i end_reason transcript audio_url = move now i done (
    Change.set_end_reason end_reason ∷ given Change.set_transcript transcript
    ++ given Change.set_audio_url audio_url)

abbrev pub mark_failed : ℕ → ℕ → String → Table → Result (CallRead × Table)
mark_failed now i failure_reason = move now i failed (Change.set_failure_reason failure_reason ∷ [])

-- The row that `create` inserts: the column defaults, `uuid4()` as `i`, `func.now()` as `now`.
abbrev pub new_call : ℕ → ℕ → CallCreate → Call
new_call now i data' = record {
  id = i;
  created_at = now;
  updated_at = now;
  meeting_url = data'.meeting_url;
  user_ref = data'.user_ref;
  consent_ack = data'.consent_ack;
  platform = or_default data'.platform google_meet;
  status = queued;
  failure_reason = none;
  end_reason = none;
  audio_url = none;
  transcript = none;
  webhook_url = data'.webhook_url;
  webhook_secret = data'.webhook_secret;
  webhook_delivered_at = none;
  webhook_attempts = 0;
  bot_container_name = none;
}

unfoldable pub create_call : ℕ → ℕ → ℕ → CallCreate → Table → Result (CallRead × Table)
create_call limit now i data' t =
    if leb limit (count_active t)
    then err concurrency_limit
    else ok (model_validate (new_call now i data'), create (new_call now i data') t)

pub get_call : ℕ → Table → Result CallRead
get_call i t = do c ← require_call i t; ok (model_validate c)
