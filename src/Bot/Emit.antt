-- ===== src/Bot/Emit.antt =====
-- bot/join_meet.py: the line that tells the runner how the bot ended.
use oreeai_notetaker.Prelude.{ℕ, pos, Option, none, some, String, ◌<>◌, show_nat}
use oreeai_notetaker.Bot.Loop.{BotOutcome}
use oreeai_notetaker.Transcription.Json.{Json, null, int, str, Fields, end, field}

-- `json.dumps` of an optional text; `quoted` is that of a text.
abbrev pub dumps_optional : (String → String) → Option String → String
dumps_optional quoted none = "null"
dumps_optional quoted (some s) = quoted s

-- `json.dumps(payload, sort_keys=True)`, less the braces.
unfoldable pub dumps_body : (String → String) → String → Option String → ℕ → String
dumps_body quoted call_id end_reason exit_code =
    "\"call_id\": "
    <> quoted call_id
    <> ", \"end_reason\": "
    <> dumps_optional quoted end_reason
    <> ", \"exit_code\": "
    <> show_nat exit_code

abbrev pub end_reason_of : Option BotOutcome → Option String
end_reason_of none = none
end_reason_of (some o) = o.end_reason

-- The message that `_emit_result` logs.
unfoldable pub emit_result : (String → String) → String → Option BotOutcome → ℕ → String
unfolding dumps_body
emit_result quoted call_id outcome exit_code =
    "OREEAI_BOT_RESULT {" <> dumps_body quoted call_id (end_reason_of outcome) exit_code <> "}"

abbrev pub optional_json : Option String → Json
optional_json none = null
optional_json (some s) = str s

-- The dict that was dumped.
abbrev pub result_payload : String → Option String → ℕ → Fields
result_payload call_id end_reason exit_code =
    field "call_id" (str call_id)
      (field "end_reason" (optional_json end_reason) (field "exit_code" (int (pos exit_code)) end))
