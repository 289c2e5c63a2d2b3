-- ===== src/Zoom/Finishes.antt =====
-- How the Zoom loop ends (bot/listeners_zoom.py, bot/README.md).
use oreeai_notetaker.Prelude.{
  ℕ, zero, suc, ◌+◌, ◌*◌, ◌≤◌, ◌<◌, ◌≡◌, inl, inr, ◌∙◌, refl, sym, ap, Bool, true, false, not, ◌&&◌,
  List, [], ◌∷◌, ◌++◌, Option, none, some, String, leb, if◌then◌else◌, arith,
}
use oreeai_notetaker.Bot.Loop.{
  Watch, Ending, BotEvent, Round, goes_on, over, announcement, debug_screenshot, initial, post_init,
  bot_outcome,
}
use oreeai_notetaker.Bot.Legal.{
  if_holds, Legal, made, one, starts, stops, announcements, counts-append,
}
use oreeai_notetaker.Bot.Timely.{Timely, InTime, Timely-InTime}
use oreeai_notetaker.Bot.Sound.{begins}
use oreeai_notetaker.Zoom.States.{
  in_call_controls, is_removed, is_call_ended, is_admitted, is_meeting_not_started,
  is_sign_in_required, is_only_authenticated, is_desktop_app_required, is_passcode_screen,
}
use oreeai_notetaker.Zoom.Loop.{
  Meeting, finish_recording, handle_stop, admit, detect_fatal_wall, sign_in_wall,
  only_authenticated_wall, desktop_app_wall, passcode_wall, never_admitted_reason,
  wait_for_admission, stay_outside, watch_call, poll, rounds, run_call_loop,
}
use oreeai_notetaker.Zoom.InCall.{
  EndsLegally, EndsWell, InCall, made-EndsLegally, stopped-EndsLegally, finish-InCall,
  watch_room-InCall, watch_controls-InCall, is_removed_reason, is_call_ended_reason,
}

-- A round keeps to the deadlines and starts the recorder at most once, or it ends the loop well.
abbrev Advances : Meeting → ℕ → ℕ → Watch → Round → Type 0
Advances m start k w (goes_on w' es) =
    (starts es + one w.recording_started ≡ one w'.recording_started)
    × (stops es ≡ 0)
    × (announcements es + one w.announced ≡ one w'.announced)
    × Timely m.timeouts m.clock start k w w'
Advances m start k w (over e es) = EndsWell m w e es

-- The events of an admission, after the recorder's start.
admit_counts :
    (announces audio announced : Bool)
    → let es : List BotEvent =
        (if announces && not announced then announcement ∷ [] else [])
        ++ (if audio then [] else debug_screenshot "computer-audio join control not found" ∷ []) in
      (starts es ≡ 0)
      × (stops es ≡ 0)
      × (announcements es + one announced
          ≡ one (if announces && not announced then true else announced))
admit_counts true true true = (refl, refl, refl)
admit_counts true true false = (refl, refl, refl)
admit_counts true false true = (refl, refl, refl)
admit_counts true false false = (refl, refl, refl)
admit_counts false true a = (refl, refl, omega arith)
admit_counts false false a = (refl, refl, omega arith)

module _ (m : Meeting) (start k : ℕ) (w : Watch) where
  InCall-Advances :
      (r : Round)
      → w.recording_started ≡ true
      → leb (w.admitted_at + m.timeouts.max_record_s) (m.clock k) ≡ false
      → InCall m w r
      → Advances m start k w r
  InCall-Advances (goes_on w' es) s early (same, at, told, a, b, c) = (
    omega (arith, a, ap one same),
    b,
    omega (arith, c, ap one told),
    inl (s, same ∙ s, at, ground (arith, early)),
  )
  InCall-Advances (over e es) s early h = h

  watch_call-Advances : w.recording_started ≡ true → Advances m start k w (watch_call m start k w)
  unfolding watch_call finish_recording
  watch_call-Advances s =
      if_holds (Advances m start k w) (is_removed m.page (64 * k)).0
        (λ removed. (
          refl,
          sym (ap one s),
          refl,
          stopped-EndsLegally m start k 3 (some "removed") _ w.recording_started
              (is_removed_reason m.page (64 * k) removed) s Legal.removed,
        ))
        (λ here.
          if_holds (Advances m start k w) (is_call_ended m.page (64 * k + 4)).0
            (λ ended. (
              refl,
              sym (ap one s),
              refl,
              stopped-EndsLegally m start k 0 (some "call_ended") _ w.recording_started
                  (is_call_ended_reason m.page (64 * k + 4) ended) s Legal.call_ended,
            ))
            (λ going.
              if_holds (Advances m start k w) (not (m.recorder_is_running k))
                (λ dead.
                  finish-InCall m start k w s 5 none
                    "parec died mid-recording; leaving with a truncated WAV" refl Legal.bot_error)
                (λ running.
                  if_holds (Advances m start k w)
                    (leb (w.admitted_at + m.timeouts.max_record_s) (m.clock k))
                    (λ late.
                      finish-InCall m start k w s 0 (some "give_up") _
                        (begins 0 (some "give_up") "max record duration reached after " _
                          (omega arith) refl)
                        Legal.give_up)
                    (λ early. InCall-Advances _ s early (
                      if_holds (InCall m w) (in_call_controls m.page (64 * k + 12)).0
                        (λ anchor. watch_room-InCall m start k w s)
                        (λ gone. watch_controls-InCall m start k w s))))))

  -- An ending before the recording has started.
  ended_outside :
      (code : ℕ) (r : String) (es : List BotEvent)
      → w.recording_started ≡ false
      → post_init code none r ≡ true
      → Legal (made code none r false)
      → (starts es ≡ 0) × (stops es ≡ 0) × (announcements es ≡ 0)
      → EndsWell m w (bot_outcome code none r false) es
  ended_outside code r es s h legal (a, b, c) =
      (a, rw s b, c, made-EndsLegally m code none r false w.recording_started h s legal)

  admit-Advances : w.recording_started ≡ false → Advances m start k w (admit m start k w)
  unfolding admit
  admit-Advances s =
      if_holds (Advances m start k w) (m.recorder_fails k)
        (λ fails.
          ended_outside 5 "recorder failed to start"
            (debug_screenshot "recording failed to start" ∷ []) s refl Legal.failed_outside
            (refl, refl, refl))
        (λ fine.
          let (a, b, c) =
            admit_counts m.announces (m.page.audio_join_button (64 * k + 12)) w.announced in
          (omega (arith, a, ap one s), b, c, inr (inl (s, refl, refl))))

  wait_for_admission-Advances :
      w.recording_started ≡ false → Advances m start k w (wait_for_admission m start k w)
  unfolding wait_for_admission
  wait_for_admission-Advances s =
      if_holds (Advances m start k w) (leb (start + m.timeouts.waiting_room_s) (m.clock k))
        (λ late.
          ended_outside 2
            (never_admitted_reason m start k (is_meeting_not_started m.page (64 * k + 17)).0)
            (debug_screenshot "never admitted" ∷ []) s
            (reason (is_meeting_not_started m.page (64 * k + 17)).0) Legal.never_admitted
            (refl, refl, refl))
        (λ early.
          if_holds (Advances m start k w) (leb w.next_admission_evidence (m.clock k))
            (λ due. (omega arith, refl, omega arith, inr (inr (s, s, ground (arith, early)))))
            (λ not_due. (omega arith, refl, omega arith, inr (inr (s, s, ground (arith, early))))))
    where
      reason : (b : Bool) → post_init 2 none (never_admitted_reason m start k b) ≡ true
      reason true = begins 2 none "meeting-not-started timeout after " _ (omega arith) refl
      reason false = begins 2 none "waiting-room timeout after " _ (omega arith) refl

  stay_outside-Advances :
      w.recording_started ≡ false
      → Advances m start k w (stay_outside m start k w (detect_fatal_wall m start k))
  unfolding stay_outside detect_fatal_wall
  stay_outside-Advances s =
      if_holds stays (is_sign_in_required m.page (64 * k + 12)).0
        (λ wall. at_wall sign_in_wall refl)
        (λ a.
          if_holds stays (is_only_authenticated m.page (64 * k + 13)).0
            (λ wall. at_wall only_authenticated_wall refl)
            (λ b.
              if_holds stays (is_desktop_app_required m.page (64 * k + 14)).0
                (λ wall. at_wall desktop_app_wall refl)
                (λ c.
                  if_holds stays (is_passcode_screen m.page (64 * k + 15)).0
                    (λ wall. at_wall passcode_wall refl) (λ d. wait_for_admission-Advances s))))
    where
      stays : Option String → Type 0
      stays o = Advances m start k w (stay_outside m start k w o)

      at_wall : (r : String) → post_init 5 none r ≡ true → stays (some r)
      at_wall r h =
          ended_outside 5 r (debug_screenshot r ∷ []) s h Legal.failed_outside (refl, refl, refl)

  poll-Advances : Advances m start k w (poll m start k w)
  unfolding poll handle_stop finish_recording
  poll-Advances =
      if_holds (Advances m start k w) (m.stop_requested k)
        (λ stop.
          if_holds (Advances m start k w) w.recording_started
            (λ s. finish-InCall m start k w s 0 none "stop requested" refl Legal.stopped)
            (λ s.
              ended_outside 0 "stop requested" [] s refl Legal.stopped_outside (refl, refl, refl)))
        (λ go.
          if_holds (Advances m start k w) w.recording_started (λ s. watch_call-Advances s)
            (λ s.
              if_holds (Advances m start k w) (is_admitted m.page (64 * k + 8)).0
                (λ admitted. admit-Advances s) (λ outside. stay_outside-Advances s)))

-- What a run from a state is: it ends legally, and the recorder has been stopped if it was ever started.
abbrev pub Runs : Meeting → Watch → Ending → List BotEvent → Type 0
Runs m w e es =
    (b : Bool) × EndsLegally m b e
    × (starts es + one w.recording_started ≡ one b)
    × (stops es ≡ one b)
    × (announcements es + one w.announced ≤ 1)

over_Runs :
    (m : Meeting) (w : Watch) (e : Ending) (es : List BotEvent) → EndsWell m w e es → Runs m w e es
over_Runs m w e es (s, p, a, ends) =
    (w.recording_started, ends, omega (arith, s), p, omega (arith, a, one_small w.announced))
  where
    one_small : (b : Bool) → one b ≤ 1
    one_small b = ground arith

module _ (m : Meeting) (start J K : ℕ) (on : (n : ℕ) → m.clock n ≤ m.clock (suc n))
    (waited : start + m.timeouts.waiting_room_s ≤ m.clock J) (before : J < K)
    (recorded : m.clock J + m.timeouts.max_record_s ≤ m.clock K) where
  -- The rounds up to `K` bring a run to an end, and to a good one.
  rounds-Runs :
      (fuel k : ℕ) (w : Watch)
      → k + fuel ≡ suc K
      → InTime m.clock J K k w
      → (e : Ending) × (es : List BotEvent) × (rounds m start fuel k w ≡ some (e, es))
        × Runs m w e es
  unfolding rounds
  rounds-Runs zero k w left h = absurd (never h.0)
    where
      never : k ≤ K → ⊥
      never h = omega (arith, h, left)
  rounds-Runs (suc fuel) k w left h =
      go (poll m start k w) refl (poll-Advances m start k w)
        (λ w' h'. rounds-Runs fuel (suc k) w' (omega (arith, left)) h')
    where
      go :
          (r : Round)
          → poll m start k w ≡ r
          → Advances m start k w r
          → ((w' : Watch)
              → InTime m.clock J K (suc k) w'
              → (e : Ending) × (es : List BotEvent) × (rounds m start fuel (suc k) w'
                  ≡ some (e, es))
                × Runs m w' e es)
          → (e : Ending) × (es : List BotEvent) × (rounds m start (suc fuel) k w ≡ some (e, es))
            × Runs m w e es
      go (over e es) q well later = (e, es, rw (q, rounds) refl, over_Runs m w e es well)
      go (goes_on w' es) q (s, p, a, timely) later =
          let (e, more, found, (b, ends, s', p', a')) = later w' (
            Timely-InTime m.timeouts m.clock start J K on waited before recorded k w w' h timely) in
          let (cs, cp, ca) = counts-append es more in
          (
            e,
            es ++ more,
            rw (q, rounds) (rw found refl),
            (b, ends, omega (arith, s, s', cs), omega (arith, p, p', cp), omega (arith, a, a', ca)),
          )

-- If the clock never goes back, if the waiting-room timeout is over by the clock of the round `j`, and
-- if the maximum recording duration after that is over by the clock of a later round `k`, then the
-- Zoom call loop is over by the round `k`, however long its rounds take. It ends with an outcome of the
-- lifecycle's diagram, exit code and end reason as there, that says whether there is a recording; or,
-- while it records, with an exception of the recorder's stop or of the search for the Leave control,
-- and with nothing else. The recorder has been started at most once, its stop has been called if it
-- was, and `announce` has been called at most once. Exceptions of the page's predicates are not among
-- what can happen here.
pub run_call_loop-Runs :
    (m : Meeting) (j k : ℕ)
    → ((n : ℕ) → m.clock n ≤ m.clock (suc n))
    → 1 ≤ j
    → j < k
    → m.clock 0 + m.timeouts.waiting_room_s ≤ m.clock j
    → m.clock j + m.timeouts.max_record_s ≤ m.clock k
    → (e : Ending) × (es : List BotEvent) × (run_call_loop m k ≡ some (e, es))
      × (b : Bool) × EndsLegally m b e
      × (starts es ≡ one b)
      × (stops es ≡ one b)
      × (announcements es ≤ 1)
unfolding run_call_loop
run_call_loop-Runs m j k on first before waited recorded =
    let (e, es, found, (b, ends, s, p, a)) =
      rounds-Runs m (m.clock 0) j k on waited before recorded k 1 (initial (m.clock 0))
        (omega arith) (omega (arith, first, before), inr (refl, first)) in
    (e, es, found, b, ends, omega (arith, s), p, omega (arith, a))
