-- ===== src/Runner/Result.antt =====
-- src/oreeai_notetaker/workers/bot_runner.py: the lines of a bot's output that the runner acts on.
use Prim.Native.Char.{Char, code}
use Prim.Native.String.{String, [], ◌∷◌}
use oreeai_notetaker.Prelude.{
  Bool, true, false, not, ◌&&◌, ◌||◌, Option, none, some, ◌==◌, ◌<>◌, if◌then◌else◌, after_prefix,
}
use oreeai_notetaker.Transcription.Json.{Json, Fields, as_dict}

-- What the regular expressions and `json.loads` answer; `loads` gives `none` for a JSONDecodeError.
pub record Reader : Type 0 where
  pub loads : String → Option Json
  -- `\w`
  pub is_word : Char → Bool

-- `.*\}` from here on: up to the last brace of the line.
unfoldable pub to_last_brace : String → Option String
to_last_brace [] = none
to_last_brace (c ∷ s) =
    let rest = to_last_brace s in
    if code c == 10
    then none
    else elim rest [ some r ↦ some (c ∷ r) | none ↦ if code c == 125 then some (c ∷ []) else none ]

-- `_RESULT_LINE_RE` at this place, and its group.
unfoldable pub match_here : String → Option String
unfolding after_prefix to_last_brace
match_here t = elim (after_prefix "OREEAI_BOT_RESULT {" t) [
  | none ↦ none
  | some rest ↦ elim (to_last_brace rest) [ none ↦ none | some r ↦ some ("{" <> r) ]
]

-- `_RESULT_LINE_RE.search(line)`, and its group.
unfoldable pub search_result : String → Option String
unfolding match_here
search_result [] = none
search_result (c ∷ s) =
    let later = search_result s in
    elim (match_here (c ∷ s)) [ some group ↦ some group | none ↦ later ]

unfoldable pub parse_result_line : Reader → String → Option Fields
unfolding search_result as_dict
parse_result_line r line = elim (search_result line) [
  | none ↦ none
  | some group ↦ as_dict (r.loads group)
]

abbrev pub ends_word : Reader → Option String → Bool
ends_word r none = false
ends_word r (some []) = true
ends_word r (some (c ∷ s)) = not (r.is_word c)

-- `_RECORDING_SIGNAL_RE.search(line)`; `in_word` says that a word's character stands before.
unfoldable pub signal_from : Reader → Bool → String → Bool
unfolding after_prefix
signal_from r in_word [] = false
signal_from r in_word (c ∷ s) =
    not in_word && ends_word r (after_prefix "recording started" (c ∷ s))
    || signal_from r (r.is_word c) s

unfoldable pub is_recording_signal : Reader → String → Bool
unfolding signal_from
is_recording_signal r line = signal_from r false line
