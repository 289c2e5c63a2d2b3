-- ===== src/Runner/ResultLine.antt =====
-- What the bot tells in its last line (bot/join_meet.py) is what the runner reads from it
-- (src/oreeai_notetaker/workers/bot_runner.py).
use Prim.Native.String.{String, [], ◌∷◌, ◌++◌}
use text.Mathlib.TextLemmas.{nil-append, cons-append, append_assoc}
use oreeai_notetaker.Prelude.{
  ℕ, ◌≡◌, refl, sym, ◌∙◌, ap, Bool, true, false, ◌||◌, Option, none, some, arith, inl, inr,
  Option-cases, Bool-cases, ◌⊎◌, str_eq, eq_iff, is_some, after_prefix, after_prefix_append,
  has_newline, has_newline-append, show_nat, show_nat-has_newline, subst, is_empty, is_empty-append,
  rstrip, rstrip_line,
}
use oreeai_notetaker.Transcription.Json
use oreeai_notetaker.Transcription.Json.{obj, as_dict, as_str}
use oreeai_notetaker.Bot.Loop.{BotOutcome, post_init}
use oreeai_notetaker.Bot.Emit.{
  dumps_optional, dumps_body, end_reason_of, emit_result, result_payload,
}
use oreeai_notetaker.Runner.ExitTable.{result_end_reason, text_in, valid_end_reasons}
use oreeai_notetaker.Runner.Result.{
  Reader, to_last_brace, match_here, search_result, parse_result_line,
}

abbrev pub marker : String
marker = "OREEAI_BOT_RESULT {"

-- Whether the marker begins anywhere in `p`, where `t` follows `p`.
unfoldable pub begins_in : String → String → Bool
unfolding after_prefix
begins_in [] t = false
begins_in (c ∷ p) t = is_some (after_prefix marker (c ∷ (p ++ t))) || begins_in p t

to_last_brace_append :
    (s : String) → has_newline s ≡ false → to_last_brace (s ++ "}") ≡ some (s ++ "}")
unfolding to_last_brace has_newline
to_last_brace_append [] h = refl
to_last_brace_append (c ∷ s) h =
    rw (cons-append c s "}")
      (ground (arith, to_last_brace, to_last_brace_append s (ground (arith, has_newline, h))))

match_here-marker :
    (s : String)
    → has_newline s ≡ false
    → match_here (marker ++ (s ++ "}")) ≡ some ("{" ++ (s ++ "}"))
unfolding match_here
match_here-marker s h =
    rw (match_here, after_prefix_append marker (s ++ "}"), to_last_brace_append s h) refl

search_hit : (t g : String) → is_empty t ≡ false → match_here t ≡ some g → search_result t ≡ some g
unfolding search_result
search_hit [] g h e = cc
search_hit (c ∷ s) g h e = rw (search_result, e) refl

-- What stands before the marker is passed over.
search_skips : (p t : String) → begins_in p t ≡ false → search_result (p ++ t) ≡ search_result t
unfolding search_result begins_in match_here
search_skips [] t h = rw (nil-append t) refl
search_skips (c ∷ p) t h = rw (cons-append c p t) (miss ∙ search_skips p t later)
  where
    later : begins_in p t ≡ false
    later = ground (arith, begins_in, h)

    miss : search_result (c ∷ (p ++ t)) ≡ search_result (p ++ t)
    miss = elim (Option-cases (after_prefix marker (c ∷ (p ++ t)))) [
      | inl e ↦ rw (search_result, match_here, e) refl
      | inr (r, e) ↦ ground (arith, begins_in, h, e)
    ]

rstrip_regrouped :
    (f m b : String) → rstrip (f ++ ((m ++ (b ++ "}")) ++ "\n")) ≡ f ++ (m ++ (b ++ "}"))
rstrip_regrouped f m b =
    ap (λ s. rstrip (f ++ s))
      (append_assoc m (b ++ "}") "\n" ∙ ap (λ s. m ++ s) (append_assoc b "}" "\n"))
    ∙ ap rstrip (sym (grouped "}\n"))
    ∙ rstrip_line (f ++ (m ++ b))
    ∙ grouped "}"
  where
    grouped : (t : String) → (f ++ (m ++ b)) ++ t ≡ f ++ (m ++ (b ++ t))
    grouped t = append_assoc f (m ++ b) t ∙ ap (λ s. f ++ s) (append_assoc m b t)

module _ (r : Reader) (quoted : String → String) (call_id : String) (outcome : Option BotOutcome)
    (exit_code : ℕ) where
  abbrev pub body : String
  body = dumps_body quoted call_id (end_reason_of outcome) exit_code

  -- The line as the log writes it: what its format puts in front, and the message.
  abbrev pub logged : String → String
  logged front = front ++ (emit_result quoted call_id outcome exit_code ++ "\n")

  -- `json.dumps` writes no newline, and the front does not hold the marker.
  abbrev pub IsOneLine : String → Type 0
  IsOneLine front =
      (has_newline (quoted call_id) ≡ false)
      × (has_newline (dumps_optional quoted (end_reason_of outcome)) ≡ false)
      × (begins_in front (emit_result quoted call_id outcome exit_code) ≡ false)

  body_one_line : (front : String) → IsOneLine front → has_newline body ≡ false
  unfolding dumps_body has_newline
  body_one_line front (id, reason, _) =
      has_newline-append "\"call_id\": " (quoted call_id ++ tail) refl (
        has_newline-append (quoted call_id) tail id (
          has_newline-append ", \"end_reason\": " (e ++ code_tail) refl (
            has_newline-append e code_tail reason (
              has_newline-append ", \"exit_code\": " (show_nat exit_code) refl
                (show_nat-has_newline exit_code)))))
    where
      e : String
      e = dumps_optional quoted (end_reason_of outcome)

      code_tail : String
      code_tail = ", \"exit_code\": " ++ show_nat exit_code

      tail : String
      tail = ", \"end_reason\": " ++ (e ++ code_tail)

  message_lem : emit_result quoted call_id outcome exit_code ≡ marker ++ (body ++ "}")
  unfolding emit_result
  message_lem = refl

  rstrip-logged : (front : String) → rstrip (logged front) ≡ front ++ (marker ++ (body ++ "}"))
  rstrip-logged front = rw message_lem (rstrip_regrouped front marker body)

  -- The payload as it was dumped is what the runner parses.
  pub parse_result_line-emit :
      (front : String)
      → IsOneLine front
      → r.loads ("{" ++ (body ++ "}"))
        ≡ some (obj (result_payload call_id (end_reason_of outcome) exit_code))
      → parse_result_line r (rstrip (logged front))
        ≡ some (result_payload call_id (end_reason_of outcome) exit_code)
  unfolding parse_result_line as_dict
  parse_result_line-emit front (id, reason, clear) e =
      rw
        (
          rstrip-logged front,
          parse_result_line,
          search_skips front (marker ++ (body ++ "}"))
              (subst (λ m. begins_in front m ≡ false) message_lem clear),
          search_hit (marker ++ (body ++ "}")) _ (is_empty-append marker _ refl)
              (match_here-marker body (body_one_line front (id, reason, clear))),
          e,
        )
        refl

-- An end reason that `BotOutcome` lets pass is one that the runner knows.
known_reason :
    (exit_code : ℕ) (e : Option String) (reason call_id : String) (code : ℕ)
    → post_init exit_code e reason ≡ true
    → result_end_reason (some (result_payload call_id e code)) ≡ e
unfolding result_end_reason as_str Json.get
known_reason exit_code none reason call_id code h = refl
known_reason exit_code (some e) reason call_id code h =
    rw (listed (Bool-cases (str_eq e "removed"))) refl
  where
    listed :
        (str_eq e "removed" ≡ true) ⊎ (str_eq e "removed" ≡ false)
        → text_in e valid_end_reasons ≡ true
    listed (inl same) =
        subst (λ s. text_in s valid_end_reasons ≡ true) (sym ((eq_iff e "removed").0 same)) refl
    listed (inr other) = ground (arith, h, other)

-- If the bot's outcome is one that `BotOutcome` lets pass, its dumped call id and end reason hold no
-- newline, what the log writes in front of the message does not bring the marker forward, and
-- `json.loads` reads the dumped payload back, then the end reason that the runner takes from the
-- logged line is the one of the outcome, and there is none where the outcome has none.
pub result_end_reason-emit :
    (r : Reader) (quoted : String → String) (call_id : String) (o : BotOutcome) (exit_code : ℕ)
    (front : String)
    → post_init o.exit_code o.end_reason o.reason ≡ true
    → IsOneLine r quoted call_id (some o) exit_code front
    → r.loads ("{" ++ (body r quoted call_id (some o) exit_code ++ "}"))
      ≡ some (obj (result_payload call_id o.end_reason exit_code))
    → result_end_reason
        (parse_result_line r (rstrip (logged r quoted call_id (some o) exit_code front)))
      ≡ o.end_reason
result_end_reason-emit r quoted call_id o exit_code front h one e =
    rw (parse_result_line-emit r quoted call_id (some o) exit_code front one e)
      (known_reason o.exit_code o.end_reason o.reason call_id exit_code h)
