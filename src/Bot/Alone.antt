-- ===== src/Bot/Alone.antt =====
-- When the call loop may take a room for deserted (bot/listeners.py, bot/README.md, Join lifecycle).
use oreeai_notetaker.Prelude.{
  ℕ, suc, ◌+◌, ◌*◌, ◌≤◌, ◌≡◌, refl, ◌⊎◌, inl, inr, Bool, true, false, not, List, [], ◌∷◌, Option,
  none, some, String, ◌<>◌, leb, if◌then◌else◌, arith, Option-cases, str_eq,
}
use oreeai_notetaker.Bot.States.{
  is_admitted, is_removed, is_call_ended, participant_count, bot_alone_in_call,
}
use oreeai_notetaker.Bot.Loop.{
  Meeting, Watch, Ending, outcome, raised, BotEvent, debug_screenshot, recorder_stopped, Round,
  goes_on, over, finish_recording, handle_stop, admit, wait_for_admission, watch_alone,
  watch_unknown, watch_room, watch_controls, watch_call, poll, bot_outcome, post_init,
  others_counted, ended_confirmation_polls, shot, after_stop,
}
use oreeai_notetaker.Bot.Legal.{if_holds}

-- In round `k` the page showed at least two participants.
abbrev pub Counted : Meeting → ℕ → Type 0
Counted m k = (n : ℕ) × ((participant_count m.page (16 * k + 5)).0 ≡ some n) × (2 ≤ n)

abbrev pub is_alone_reason : Option String → Bool
is_alone_reason none = false
is_alone_reason (some e) = str_eq e "alone"

-- The loop returned `alone`.
abbrev pub left_alone : Ending → Bool
left_alone raised = false
left_alone (outcome o) = is_alone_reason o.end_reason

-- A round that ends as `alone` has seen others before; one that goes on has seen them before or now.
abbrev pub Honest : Meeting → ℕ → Watch → Round → Type 0
Honest m k w (goes_on w' es) = w'.saw_others ≡ true → (w.saw_others ≡ true) ⊎ Counted m k
Honest m k w (over e es) = left_alone e ≡ true → w.saw_others ≡ true

others_Counted :
    (m : Meeting) (start k : ℕ)
    → others_counted m start k (participant_count m.page (16 * k + 5)).0 ≡ true
    → Counted m k
others_Counted m start k h = elim (Option-cases (participant_count m.page (16 * k + 5)).0) [
  | inl e ↦ absurd (unknown _ e h)
  | inr (n, e) ↦ (n, e, enough _ n e h)
]
  where
    unknown : (o : Option ℕ) → o ≡ none → others_counted m start k o ≡ true → ⊥
    unknown o e h = ground arith

    enough : (o : Option ℕ) (n : ℕ) → o ≡ some n → others_counted m start k o ≡ true → 2 ≤ n
    enough o n e h = ground arith

bot_outcome-left_alone :
    (code : ℕ) (e : Option String) (r : String) (b : Bool)
    → left_alone (bot_outcome code e r b) ≡ true
    → is_alone_reason e ≡ true
unfolding bot_outcome
bot_outcome-left_alone code e r b =
    if_holds (λ x. left_alone x ≡ true → is_alone_reason e ≡ true) (post_init code e r) (λ p h. h)
      (λ p h. cc)

module _ (m : Meeting) (start k : ℕ) where
  after_stop-left_alone :
      (code : ℕ) (e : Option String) (r : String)
      → left_alone (after_stop m start k (bot_outcome code e r true)) ≡ true
      → is_alone_reason e ≡ true
  after_stop-left_alone code e r =
      if_holds (λ x. left_alone x ≡ true → is_alone_reason e ≡ true) (m.stop_raises k) (λ x h. cc)
        (λ fine. bot_outcome-left_alone code e r true)

  finish-Honest :
      (w : Watch) (r : String) (code : ℕ) (e : Option String)
      → (is_alone_reason e ≡ true → w.saw_others ≡ true)
      → Honest m k w (finish_recording m start k r code e)
  unfolding finish_recording
  finish-Honest w r code e seen =
      if_holds (Honest m k w) (m.page.leave_call_button (16 * k + 15))
        (λ there.
          if_holds (Honest m k w) (m.leave_fails k) (λ x h. cc)
            (λ x h. seen (after_stop-left_alone code e r h)))
        (λ gone h. seen (after_stop-left_alone code e r h))

  shot-Honest :
      (w : Watch) (what : String) (r : Round)
      → Honest m k w r
      → Honest m k w (shot m start k what r)
  shot-Honest w what (goes_on w' es) h = h
  shot-Honest w what (over e es) h = h

  -- An ending with another reason.
  stopped-Honest :
      (w : Watch) (code : ℕ) (e : Option String) (r : String) (es : List BotEvent)
      → is_alone_reason e ≡ false
      → Honest m k w (over (after_stop m start k (bot_outcome code e r true)) es)
  stopped-Honest w code e r es h l = absurd (clash (after_stop-left_alone code e r l))
    where
      clash : is_alone_reason e ≡ true → ⊥
      clash x = cc

  other-Honest :
      (w : Watch) (code : ℕ) (e : Option String) (r : String) (b : Bool) (es : List BotEvent)
      → is_alone_reason e ≡ false
      → Honest m k w (over (bot_outcome code e r b) es)
  other-Honest w code e r b es h l = absurd (clash (bot_outcome-left_alone code e r b l))
    where
      clash : is_alone_reason e ≡ true → ⊥
      clash x = cc

  watch_alone-Honest : (w : Watch) → Honest m k w (watch_alone m start k w)
  unfolding watch_alone
  watch_alone-Honest w =
      if_holds (Honest m k w) w.saw_others (λ seen. since seen w.alone_since)
        (λ unseen.
          if_holds (Honest m k w) (leb (w.admitted_at + m.timeouts.empty_room_s) (m.clock k))
            (λ late. finish-Honest w _ 4 none (λ h. cc)) (λ early h. inl h))
    where
      since :
          w.saw_others ≡ true
          → (o : Option ℕ)
          → Honest m k w (elim o [
            | none ↦ goes_on (record w { alone_since = some (m.clock k) }) []
            | some since ↦
                if leb (since + m.timeouts.alone_grace_s) (m.clock k)
                then finish_recording m start k
                    ("bot alone after others left; alone grace of "
                      <> m.seconds_text m.timeouts.alone_grace_s
                      <> " seconds elapsed")
                    0
                    (some "alone")
                else goes_on w []
          ])
      since seen none = λ h. inl h
      since seen (some t) =
          if_holds (Honest m k w) (leb (t + m.timeouts.alone_grace_s) (m.clock k))
            (λ late. finish-Honest w _ 0 (some "alone") (λ h. seen)) (λ early h. inl h)

  watch_unknown-Honest : (w : Watch) (since : ℕ) → Honest m k w (watch_unknown m start k w since)
  unfolding watch_unknown
  watch_unknown-Honest w since =
      if_holds (Honest m k w) (leb (since + m.timeouts.empty_room_s) (m.clock k))
        (λ late. shot-Honest w _ _ (finish-Honest w _ 5 none (λ h. cc)))
        (λ early.
          if_holds (Honest m k w) (leb w.next_unknown_evidence (m.clock k)) (λ due h. inl h)
            (λ not_due h. inl h))

  watch_controls-Honest : (w : Watch) → Honest m k w (watch_controls m start k w)
  unfolding watch_controls
  watch_controls-Honest w =
      if_holds (Honest m k w) (m.page.leave_call_button (16 * k + 5)) (λ there h. inl h)
        (λ gone.
          if_holds (Honest m k w) (leb ended_confirmation_polls (suc w.missed_leave))
            (λ confirmed.
              stopped-Honest w 0 (some "call_ended") _
                (debug_screenshot "in-call controls gone" ∷ recorder_stopped ∷ []) refl)
            (λ early h. inl h))

  watch_room-Honest : (w : Watch) → Honest m k w (watch_room m start k w)
  unfolding watch_room
  watch_room-Honest w =
      if_holds (Honest m k w) (others_counted m start k (participant_count m.page (16 * k + 5)).0)
        (λ others h. inr (others_Counted m start k others))
        (λ few.
          if_holds (Honest m k w) (bot_alone_in_call m.page (16 * k + 8)).0
            (λ alone. from _ (watch_alone-Honest w₀))
            (λ unsure.
              if_holds (Honest m k w) w.saw_others (λ seen h. inl seen)
                (λ unseen. from _ (watch_unknown-Honest w₀ _))))
    where
      w₀ : Watch
      w₀ = record w { missed_leave = 0 }

      from : (r : Round) → Honest m k w₀ r → Honest m k w r
      from (goes_on w' es) h = h
      from (over e es) h = h

  watch_call-Honest : (w : Watch) → Honest m k w (watch_call m start k w)
  unfolding watch_call
  watch_call-Honest w =
      if_holds (Honest m k w) (is_removed m.page (16 * k)).0
        (λ x. stopped-Honest w 3 (some "removed") _ (recorder_stopped ∷ []) refl)
        (λ here.
          if_holds (Honest m k w) (is_call_ended m.page (16 * k + 1)).0
            (λ x. stopped-Honest w 0 (some "call_ended") _ (recorder_stopped ∷ []) refl)
            (λ going.
              if_holds (Honest m k w) (not (m.recorder_is_running k))
                (λ dead. shot-Honest w "recorder process ended" _ (
                  finish-Honest w "parec died mid-recording; leaving with a truncated WAV" 5 none
                    (λ h. cc)))
                (λ running.
                  if_holds (Honest m k w)
                    (leb (w.admitted_at + m.timeouts.max_record_s) (m.clock k))
                    (λ late. finish-Honest w _ 0 (some "give_up") (λ h. cc))
                    (λ early.
                      if_holds (Honest m k w) (is_admitted m.page (16 * k + 2)).0
                        (λ admitted. watch_room-Honest w) (λ unsure. watch_controls-Honest w)))))

  admit-Honest : (w : Watch) → Honest m k w (admit m start k w)
  unfolding admit
  admit-Honest w =
      if_holds (Honest m k w) (m.recorder_fails k)
        (λ fails.
          other-Honest w 5 none "recorder failed to start" false
            (debug_screenshot "recording failed to start" ∷ []) refl)
        (λ fine h. inl h)

  wait_for_admission-Honest : (w : Watch) → Honest m k w (wait_for_admission m start k w)
  unfolding wait_for_admission
  wait_for_admission-Honest w =
      if_holds (Honest m k w) (m.page.join_blocked_indicator (16 * k + 4))
        (λ blocked.
          other-Honest w 5 none "meet blocked the join attempt (anti-bot wall)" false
            (debug_screenshot "meet blocked the join attempt" ∷ []) refl)
        (λ clear.
          if_holds (Honest m k w) (leb (start + m.timeouts.waiting_room_s) (m.clock k))
            (λ late. other-Honest w 2 none _ false (debug_screenshot "never admitted" ∷ []) refl)
            (λ early.
              if_holds (Honest m k w) (leb w.next_admission_evidence (m.clock k)) (λ due h. inl h)
                (λ not_due h. inl h)))

  pub poll-Honest : (w : Watch) → Honest m k w (poll m start k w)
  unfolding poll handle_stop
  poll-Honest w =
      if_holds (Honest m k w) (m.stop_requested k)
        (λ stop.
          if_holds (Honest m k w) w.recording_started
            (λ s. finish-Honest w "stop requested" 0 none (λ h. cc))
            (λ s. other-Honest w 0 none "stop requested" false [] refl))
        (λ go.
          if_holds (Honest m k w) w.recording_started (λ s. watch_call-Honest w)
            (λ s.
              if_holds (Honest m k w) (is_admitted m.page (16 * k + 2)).0
                (λ admitted. admit-Honest w) (λ outside. wait_for_admission-Honest w)))
