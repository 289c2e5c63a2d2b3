-- ===== src/Bot/Sound.antt =====
-- Every round of the call loop, and every run of it (bot/listeners.py).
use Prim.Native.String.{count}
use oreeai_notetaker.Prelude.{
  ℕ, suc, ◌+◌, ◌*◌, ◌<◌, ◌≡◌, refl, sym, ap, true, false, [], Option, none, some, String, ◌<>◌, leb,
  if◌then◌else◌, arith,
}
use oreeai_notetaker.Bot.States.{participant_count, bot_alone_in_call}
use oreeai_notetaker.Bot.Loop.{
  Meeting, Watch, outcome, raised, Round, goes_on, over, post_init, finish_recording, handle_stop,
  admit, wait_for_admission, watch_alone, watch_unknown, watch_room, watch_controls, others_counted,
  ended_confirmation_polls,
}
use oreeai_notetaker.Bot.Legal.{
  if_holds, Legal, one, reason_given, Sound, made-EndsWell, stopped-EndsWell,
  finish_recording-Sound, shot-Sound,
}

-- An outcome that passes with some reason passes with any that begins with a text.
pub begins :
    (code : ℕ) (e : Option String) (s d : String)
    → 0 < count s
    → post_init code e "x" ≡ true
    → post_init code e (s <> d) ≡ true
begins code none s d long h = rw (reason_given s d long) refl
begins code (some e) s d long h = rw (reason_given s d long) h

module _ (m : Meeting) (start k : ℕ) (w : Watch) where
  pub handle_stop-Sound : Sound m w (handle_stop m start k w)
  unfolding handle_stop
  handle_stop-Sound =
      if_holds (Sound m w) w.recording_started
        (λ s. finish_recording-Sound m start k w 0 none "stop requested" refl s Legal.stopped)
        (λ s. (
          refl,
          sym (ap one s),
          refl,
          made-EndsWell m start k w 0 none "stop requested" false refl s Legal.stopped_outside,
        ))

  pub admit-Sound : w.recording_started ≡ false → Sound m w (admit m start k w)
  unfolding admit
  admit-Sound s =
      if_holds (Sound m w) (m.recorder_fails k)
        (λ fails. (
          refl,
          sym (ap one s),
          refl,
          made-EndsWell m start k w 5 none "recorder failed to start" false refl s
              Legal.failed_outside,
        ))
        (λ fine. ground (arith, s))

  pub wait_for_admission-Sound :
      w.recording_started ≡ false → Sound m w (wait_for_admission m start k w)
  unfolding wait_for_admission
  wait_for_admission-Sound s =
      if_holds (Sound m w) (m.page.join_blocked_indicator (16 * k + 4))
        (λ blocked. (
          refl,
          sym (ap one s),
          refl,
          made-EndsWell m start k w 5 none "meet blocked the join attempt (anti-bot wall)" false
              refl s Legal.failed_outside,
        ))
        (λ clear.
          if_holds (Sound m w) (leb (start + m.timeouts.waiting_room_s) (m.clock k))
            (λ late. (
              refl,
              sym (ap one s),
              refl,
              made-EndsWell m start k w 2 none _ false
                  (begins 2 none "waiting-room timeout after " _ (omega arith) refl) s
                  Legal.never_admitted,
            ))
            (λ early.
              if_holds (Sound m w) (leb w.next_admission_evidence (m.clock k)) (λ due. ground arith)
                (λ not_due. ground arith)))

  watch_alone-Sound : w.recording_started ≡ true → Sound m w (watch_alone m start k w)
  unfolding watch_alone
  watch_alone-Sound s =
      if_holds (Sound m w) w.saw_others (λ seen. since w.alone_since)
        (λ unseen.
          if_holds (Sound m w) (leb (w.admitted_at + m.timeouts.empty_room_s) (m.clock k))
            (λ late.
              finish_recording-Sound m start k w 4 none _
                (begins 4 none "room remained empty; empty-room timeout of " _ (omega arith) refl) s
                Legal.empty_room)
            (λ early. ground arith))
    where
      since :
          (o : Option ℕ)
          → Sound m w (elim o [
            | none ↦ goes_on (record w { alone_since = some (m.clock k) }) []
            | some since ↦
                if leb (since + m.timeouts.alone_grace_s) (m.clock k)
                then finish_recording m start k
                    ("bot alone after others left; alone grace of "
                      <> m.seconds_text m.timeouts.alone_grace_s
                      <> " seconds elapsed")
                    0
                    (some "alone")
                else goes_on w []
          ])
      since none = ground arith
      since (some t) =
          if_holds (Sound m w) (leb (t + m.timeouts.alone_grace_s) (m.clock k))
            (λ late.
              finish_recording-Sound m start k w 0 (some "alone") _
                (begins 0 (some "alone") "bot alone after others left; alone grace of " _
                  (omega arith) refl)
                s Legal.alone)
            (λ early. ground arith)

  watch_unknown-Sound :
      (since : ℕ) → w.recording_started ≡ true → Sound m w (watch_unknown m start k w since)
  unfolding watch_unknown
  watch_unknown-Sound since s =
      if_holds (Sound m w) (leb (since + m.timeouts.empty_room_s) (m.clock k))
        (λ late. shot-Sound m start k w "participant detection unavailable" _ (
          finish_recording-Sound m start k w 5 none _
            (begins 5 none "participant count unavailable; empty-room timeout of " _ (omega arith)
              refl)
            s Legal.bot_error))
        (λ early.
          if_holds (Sound m w) (leb w.next_unknown_evidence (m.clock k)) (λ due. ground arith)
            (λ not_due. ground arith))

  pub watch_controls-Sound : w.recording_started ≡ true → Sound m w (watch_controls m start k w)
  unfolding watch_controls
  watch_controls-Sound s =
      if_holds (Sound m w) (m.page.leave_call_button (16 * k + 5)) (λ there. ground arith)
        (λ gone.
          if_holds (Sound m w) (leb ended_confirmation_polls (suc w.missed_leave))
            (λ confirmed. (
              refl,
              sym (ap one s),
              refl,
              stopped-EndsWell m start k w 0 (some "call_ended") _
                  (begins 0 (some "call_ended") "in-call indicators gone for " _ (omega arith) refl)
                  s Legal.call_ended,
            ))
            (λ early. ground arith))

-- What is sound for a state is so for one that differs in what the loop saw.
abbrev Alike : Watch → Watch → Type 0
Alike w v = (v.recording_started ≡ w.recording_started) × (v.announced ≡ w.announced)

Sound-Alike : (m : Meeting) (w v : Watch) (r : Round) → Alike w v → Sound m v r → Sound m w r
Sound-Alike m w v (goes_on w' es) (a, b) h = ground arith
Sound-Alike m w v (over (outcome o) es) (a, b) h = ground arith
Sound-Alike m w v (over raised es) (a, b) h = ground arith

module _ (m : Meeting) (start k : ℕ) (w : Watch) where
  pub watch_room-Sound : w.recording_started ≡ true → Sound m w (watch_room m start k w)
  unfolding watch_room
  watch_room-Sound s =
      if_holds (Sound m w) (others_counted m start k (participant_count m.page (16 * k + 5)).0)
        (λ others. ground arith)
        (λ none_seen.
          if_holds (Sound m w) (bot_alone_in_call m.page (16 * k + 8)).0
            (λ alone. Sound-Alike m w w₀ _ (refl, refl) (watch_alone-Sound m start k w₀ s))
            (λ unsure.
              if_holds (Sound m w) w.saw_others (λ seen. ground arith)
                (λ unseen.
                  Sound-Alike m w w₀ _ (refl, refl) (watch_unknown-Sound m start k w₀ _ s))))
    where
      w₀ : Watch
      w₀ = record w { missed_leave = 0 }
