-- ===== src/Zoom/Spared.antt =====
-- Which text on the page can end a Zoom call (bot/listeners_zoom.py, bot/states_zoom.py).
use oreeai_notetaker.Prelude.{
  ℕ, zero, suc, ◌+◌, ◌*◌, ◌≡◌, refl, sym, subst, ◌∙◌, Bool, true, false, not, ◌&&◌, List, [], ◌++◌,
  Option, none, some, String, ◌<>◌, str_eq, leb, if◌then◌else◌, inl, inr, Option-cases,
}
use oreeai_notetaker.Bot.Loop.{
  BotOutcome, Watch, Ending, outcome, raised, BotEvent, Round, goes_on, over, bot_outcome, initial,
  post_init,
}
use oreeai_notetaker.Bot.Legal.{if_holds}
use oreeai_notetaker.Zoom.States.{
  Page, in_call_controls, is_removed, is_call_ended, is_admitted, participant_count,
  bot_alone_in_call,
}
use oreeai_notetaker.Zoom.Loop.{
  Meeting, shot, finish_recording, handle_stop, admit, detect_fatal_wall, wait_for_admission,
  stay_outside, watch_alone, watch_unknown, watch_room, watch_call, poll, rounds, run_call_loop,
  others_counted, or_now,
}

-- The toolbar is there whenever it is asked for, and no dialog says that the call is over.
pub record IsLive (page : Page) : Type 0 where
  pub toolbar : (at : ℕ) → (in_call_controls page at).0 ≡ true
  pub not_removed : (at : ℕ) → page.removed_dialog at ≡ none
  pub not_ended : (at : ℕ) → page.meeting_ended_dialog at ≡ none

-- Neither `removed` nor `call_ended`.
abbrev pub is_spared : Option String → Bool
is_spared none = true
is_spared (some e) = not (str_eq e "removed") && not (str_eq e "call_ended")

abbrev Spared : Ending → Type 0
Spared (outcome o) = is_spared o.end_reason ≡ true
Spared raised = Unit {0}

abbrev SparedRound : Round → Type 0
SparedRound (goes_on w es) = Unit {0}
SparedRound (over e es) = Spared e

bot_outcome-Spared :
    (code : ℕ) (e : Option String) (r : String) (b : Bool)
    → is_spared e ≡ true
    → Spared (bot_outcome code e r b)
unfolding bot_outcome
bot_outcome-Spared code e r b h = if_holds Spared (post_init code e r) (λ fits. h) (λ odd. tt)

shot-SparedRound : (what : String) (r : Round) → SparedRound r → SparedRound (shot what r)
shot-SparedRound what (goes_on w es) h = h
shot-SparedRound what (over e es) h = h

is_removed_live : (page : Page) (at : ℕ) → IsLive page → (is_removed page at).0 ≡ false
unfolding is_removed
is_removed_live page at live = elim (Option-cases (page.removed_indicator (at + 1))) [
  | inl e ↦ rw (is_removed, live.not_removed at, e) refl
  | inr (d, e) ↦ rw (is_removed, live.not_removed at, e, live.toolbar (at + 2)) refl
]

is_call_ended_live : (page : Page) (at : ℕ) → IsLive page → (is_call_ended page at).0 ≡ false
unfolding is_call_ended
is_call_ended_live page at live = elim (Option-cases (page.call_ended_indicator (at + 1))) [
  | inl e ↦ rw (is_call_ended, live.not_ended at, e) refl
  | inr (d, e) ↦ rw (is_call_ended, live.not_ended at, e, live.toolbar (at + 2)) refl
]

clash : true ≡ false → ⊥
clash e = cc

module _ (m : Meeting) (start k : ℕ) (w : Watch) where
  finish-SparedRound :
      (r : String) (code : ℕ) (e : Option String)
      → is_spared e ≡ true
      → SparedRound (finish_recording m start k r code e)
  unfolding finish_recording
  finish-SparedRound r code e h =
      if_holds Spared (m.leave_search_raises k) (λ raises. tt)
        (λ fine.
          if_holds Spared (m.stop_raises k) (λ raises. tt)
            (λ fine. bot_outcome-Spared code e r true h))

  watch_alone-SparedRound : SparedRound (watch_alone m start k w)
  unfolding watch_alone
  watch_alone-SparedRound =
      if_holds SparedRound w.saw_others (λ seen. since w.alone_since)
        (λ unseen.
          if_holds SparedRound (leb (w.admitted_at + m.timeouts.empty_room_s) (m.clock k))
            (λ late. finish-SparedRound _ 4 none refl) (λ early. tt))
    where
      since :
          (o : Option ℕ)
          → SparedRound (elim o [
            | none ↦ goes_on (record w { alone_since = some (m.clock k) }) []
            | some since ↦
                if leb (since + m.timeouts.alone_grace_s) (m.clock k)
                then finish_recording m start k
                    ("bot alone after others left; alone grace of "
                      <> m.seconds_text m.timeouts.alone_grace_s
                      <> " seconds elapsed")
                    0
                    (some "alone")
                else goes_on w []
          ])
      since none = tt
      since (some t) =
          if_holds SparedRound (leb (t + m.timeouts.alone_grace_s) (m.clock k))
            (λ late. finish-SparedRound _ 0 (some "alone") refl) (λ early. tt)

  watch_unknown-SparedRound : (since : ℕ) → SparedRound (watch_unknown m start k w since)
  unfolding watch_unknown
  watch_unknown-SparedRound since =
      if_holds SparedRound (leb (since + m.timeouts.empty_room_s) (m.clock k))
        (λ late.
          shot-SparedRound "participant detection unavailable"
            (finish_recording m start k reason 5 none) (finish-SparedRound reason 5 none refl))
        (λ early.
          if_holds SparedRound (leb w.next_unknown_evidence (m.clock k)) (λ due. tt)
            (λ not_due. tt))
    where
      reason : String
      reason =
          "participant count unavailable; empty-room timeout of "
          <> m.seconds_text m.timeouts.empty_room_s
          <> " seconds elapsed"

  stay_outside-SparedRound : (o : Option String) → SparedRound (stay_outside m start k w o)
  unfolding stay_outside wait_for_admission
  stay_outside-SparedRound (some r) = bot_outcome-Spared 5 none r false refl
  stay_outside-SparedRound none =
      if_holds SparedRound (leb (start + m.timeouts.waiting_room_s) (m.clock k))
        (λ late. bot_outcome-Spared 2 none _ false refl)
        (λ early.
          if_holds SparedRound (leb w.next_admission_evidence (m.clock k)) (λ due. tt)
            (λ not_due. tt))

module _ (m : Meeting) (live : IsLive m.page) (start k : ℕ) (w : Watch) where
  watch_room-SparedRound : SparedRound (watch_room m start k w)
  unfolding watch_room
  watch_room-SparedRound =
      if_holds SparedRound (others_counted m start k (participant_count m.page (64 * k + 14)).0)
        (λ others. tt)
        (λ few.
          if_holds SparedRound (bot_alone_in_call m.page (64 * k + 17)).0
            (λ alone. watch_alone-SparedRound m start k (record w { missed_leave = 0 }))
            (λ unsure.
              if_holds SparedRound w.saw_others (λ seen. tt)
                (λ unseen.
                  watch_unknown-SparedRound m start k (record w { missed_leave = 0 })
                    (or_now m start k w.unknown_since))))

  watch_call-SparedRound : SparedRound (watch_call m start k w)
  unfolding watch_call
  watch_call-SparedRound =
      if_holds SparedRound (is_removed m.page (64 * k)).0
        (λ removed. absurd (clash (sym removed ∙ is_removed_live m.page (64 * k) live)))
        (λ here.
          if_holds SparedRound (is_call_ended m.page (64 * k + 4)).0
            (λ ended. absurd (clash (sym ended ∙ is_call_ended_live m.page (64 * k + 4) live)))
            (λ going.
              if_holds SparedRound (not (m.recorder_is_running k))
                (λ dead.
                  finish-SparedRound m start k w
                    "parec died mid-recording; leaving with a truncated WAV" 5 none refl)
                (λ running.
                  if_holds SparedRound (leb (w.admitted_at + m.timeouts.max_record_s) (m.clock k))
                    (λ late. finish-SparedRound m start k w _ 0 (some "give_up") refl)
                    (λ early.
                      if_holds SparedRound (in_call_controls m.page (64 * k + 12)).0
                        (λ anchor. watch_room-SparedRound)
                        (λ gone. absurd (clash (sym (live.toolbar (64 * k + 12)) ∙ gone)))))))

  poll-SparedRound : SparedRound (poll m start k w)
  unfolding poll handle_stop admit
  poll-SparedRound =
      if_holds SparedRound (m.stop_requested k)
        (λ stop.
          if_holds SparedRound w.recording_started
            (λ s. finish-SparedRound m start k w "stop requested" 0 none refl)
            (λ s. bot_outcome-Spared 0 none "stop requested" false refl))
        (λ go.
          if_holds SparedRound w.recording_started (λ s. watch_call-SparedRound)
            (λ s.
              if_holds SparedRound (is_admitted m.page (64 * k + 8)).0
                (λ admitted.
                  if_holds SparedRound (m.recorder_fails k)
                    (λ fails. bot_outcome-Spared 5 none "recorder failed to start" false refl)
                    (λ fine. tt))
                (λ outside. stay_outside-SparedRound m start k w (detect_fatal_wall m start k))))

abbrev EndsSpared : Option (Ending × List BotEvent) → Type 0
EndsSpared none = Unit {0}
EndsSpared (some (e, es)) = Spared e

rounds-EndsSpared :
    (m : Meeting) (start fuel k : ℕ) (w : Watch)
    → IsLive m.page
    → EndsSpared (rounds m start fuel k w)
unfolding rounds
rounds-EndsSpared m start zero k w live = tt
rounds-EndsSpared m start (suc fuel) k w live =
    go (poll m start k w) refl (poll-SparedRound m live start k w)
      (λ w'. rounds-EndsSpared m start fuel (suc k) w' live)
  where
    carried :
        (o : Option (Ending × List BotEvent)) (ys : List BotEvent)
        → EndsSpared o
        → EndsSpared (elim o [ none ↦ none | some (e, more) ↦ some (e, ys ++ more) ])
    carried none ys h = tt
    carried (some (e, more)) ys h = h

    go :
        (r : Round)
        → poll m start k w ≡ r
        → SparedRound r
        → ((w' : Watch) → EndsSpared (rounds m start fuel (suc k) w'))
        → EndsSpared (rounds m start (suc fuel) k w)
    go (over x ys) q spared later = rw (q, rounds) spared
    go (goes_on w' ys) q spared later =
        rw (q, rounds) (carried (rounds m start fuel (suc k) w') ys (later w'))

-- While Zoom's toolbar is there whenever the bot looks for it, and no dialog says that the bot was
-- removed or the meeting has ended, no text on the page ends the call: the loop's end reason is
-- neither `removed` nor `call_ended`.
pub run_call_loop_spared :
    (m : Meeting) (fuel : ℕ) (o : BotOutcome) (es : List BotEvent)
    → IsLive m.page
    → run_call_loop m fuel ≡ some (outcome o, es)
    → is_spared o.end_reason ≡ true
unfolding run_call_loop
run_call_loop_spared m fuel o es live h =
    subst EndsSpared h (rounds-EndsSpared m (m.clock 0) fuel 1 (initial (m.clock 0)) live)
