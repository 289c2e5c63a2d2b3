-- ===== src/Bot/Browser.antt =====
-- The steps of the browser's part of bot/join_meet.py, one after the other.
use mathlib.Core.List.{append-nil}
use oreeai_notetaker.Prelude.{
  ℕ, suc, ◌<◌, ◌≡◌, refl, sym, ap, subst, ◌∙◌, Bool, true, false, List, [], ◌∷◌, map, Option, none,
  some, String, ◌<>◌, if◌then◌else◌, arith,
}
use oreeai_notetaker.Bot.Loop.{Ending, outcome, raised, BotEvent, recorder_stopped, run_call_loop}
use oreeai_notetaker.Bot.Legal.{EndsWell, if_holds}
use oreeai_notetaker.Bot.Sound.{begins}
use oreeai_notetaker.Bot.Deadline.{run_call_loop-RunsWell}
use oreeai_notetaker.Bot.Environ.{
  is_authenticated, profile_dir, meeting_url, verify_consent_identity, environment,
}
use oreeai_notetaker.Bot.Entry.{enough_rounds}
use oreeai_notetaker.Bot.Join.{
  Process, Step, launched, closed, name_typed, microphone_muted, microphone_already_off, joining,
  pausing, launching, checking_session, reading_account, identified, session_check_url,
  run_authenticated, opening, typing, dwelling, checking_blocked, finding_join, muting_camera,
  muting_microphone, camera_muted, join_clicked, opened, screenshot, in_call, Run, step, fail,
  tried, own_meeting, record_call, click_join, mute_camera, mute_microphone, join_and_record,
  check_session, closing_after, closing, run_browser, validate_profile_dir, account_display_name,
}
use oreeai_notetaker.Bot.Careful.{
  is_careful, calls, has_joined, IsHindered, no_microphone, no_join_button, no_profile,
  no_session_page, signed_out, other_identity, called, call_raised, stage_raised, Good, Leads,
  after-Good, calls_closed, has_joined_closed, calls_of_calls, joined_by_calls, in_call_careful,
  careful_end, fail-Good, step-Good, pass,
}

module _ (p : Process) (tick : (n : ℕ) → p.meeting.clock n < p.meeting.clock (suc n)) where
  record_call-tried : (fuel : ℕ) → record_call p fuel ≡ tried p (run_call_loop (own_meeting p) fuel)
  unfolding record_call
  record_call-tried fuel = refl

  record_call-Good : Good p true true (record_call p (enough_rounds p))
  unfolding tried is_careful
  record_call-Good =
      let (e, es, found, b, ends, _, _, _) = run_call_loop-RunsWell (own_meeting p) tick in
      subst (Good p true true) (sym (record_call-tried (enough_rounds p) ∙ ap (tried p) found))
        (go e es b found ends)
    where
      stopped : List Step
      stopped = if p.recorder_left_running then in_call recorder_stopped ∷ [] else []

      stopped_careful : is_careful true true stopped ≡ true
      stopped_careful =
          if_holds (λ more. is_careful true true more ≡ true) p.recorder_left_running (λ h. refl)
            (λ h. refl)

      stopped_joined : has_joined true stopped ≡ true
      stopped_joined =
          if_holds (λ more. has_joined true more ≡ true) p.recorder_left_running (λ h. refl)
            (λ h. refl)

      go :
          (e : Ending) (es : List BotEvent) (b : Bool)
          → run_call_loop (own_meeting p) (enough_rounds p) ≡ some (e, es)
          → EndsWell (own_meeting p) b e
          → Good p true true (tried p (some (e, es)))
      go (outcome o) es b found (legal, _) =
          subst (λ steps. Good p true true (some (outcome o, steps))) (append-nil (map in_call es))
            (
              in_call_careful es [] refl,
              rw (calls_of_calls es [], joined_by_calls es [], append-nil es) (called found legal),
            )
      go raised es b found ends = (
        in_call_careful es stopped stopped_careful,
        rw (calls_of_calls es stopped, joined_by_calls es stopped, stopped_joined)
            (call_raised (calls stopped) found),
      )

  click_join-Good : Good p true false (click_join p (enough_rounds p))
  unfolding click_join is_careful
  click_join-Good = pass p finding_join true false _ (
      if_holds (Good p true false) p.join_button
        (λ there. pass p (pausing 2) true false _ (
          step-Good p joining true false true true (join_clicked ∷ [])
            (record_call p (enough_rounds p)) (λ es. (λ k. k, refl, refl)) record_call-Good))
        (λ missing.
          after-Good p true false true false (screenshot "join button never appeared" ∷ [])
            (fail p "join control never appeared") (λ es. (λ k. k, refl, refl))
            (fail-Good p true "join control never appeared" refl (no_join_button missing))))

  mute_camera-Good :
      (toggle : Option String) → Good p true false (mute_camera p (enough_rounds p) toggle)
  unfolding mute_camera is_careful
  mute_camera-Good none =
      pass p muting_camera true false (click_join p (enough_rounds p)) click_join-Good
  mute_camera-Good (some aria) =
      if_holds
        (λ done. Good p true false (step p muting_camera done (click_join p (enough_rounds p))))
        (p.turns_off aria)
        (λ on.
          step-Good p muting_camera true false true false (camera_muted ∷ [])
            (click_join p (enough_rounds p)) (λ es. (λ k. k, refl, refl)) click_join-Good)
        (λ off. pass p muting_camera true false (click_join p (enough_rounds p)) click_join-Good)

  abbrev camera_rest : Run
  camera_rest = step p (pausing 1) [] (mute_camera p (enough_rounds p) p.camera_toggle)

  muted :
      (done : Step)
      → Leads false false true false (done ∷ [])
      → Good p false false (step p muting_microphone (done ∷ []) camera_rest)
  muted done keeps =
      step-Good p muting_microphone false false true false (done ∷ []) camera_rest keeps
        (pass p (pausing 1) true false _ (mute_camera-Good p.camera_toggle))

  mute_microphone-Good :
      (toggle : Option String)
      → p.microphone_toggle ≡ toggle
      → Good p false false (mute_microphone p (enough_rounds p) toggle)
  unfolding mute_microphone is_careful
  mute_microphone-Good none e =
      step-Good p muting_microphone false false false false
        (screenshot "microphone toggle not found" ∷ []) (fail p "microphone toggle not found")
        (λ es. (λ k. k, refl, refl))
        (fail-Good p false "microphone toggle not found" refl (no_microphone e))
  mute_microphone-Good (some aria) e =
      if_holds (λ done. Good p false false (step p muting_microphone (done ∷ []) camera_rest))
        (p.turns_off aria) (λ on. muted microphone_muted (λ es. (λ k. k, refl, refl)))
        (λ off. muted microphone_already_off (λ es. (λ k. k, refl, refl)))

  rest_Good :
      Good p false false
        (step p (pausing 0) [] (mute_microphone p (enough_rounds p) p.microphone_toggle))
  rest_Good =
      pass p (pausing 0) false false (mute_microphone p (enough_rounds p) p.microphone_toggle)
        (mute_microphone-Good p.microphone_toggle refl)

  named_Good :
      (authenticated : Bool)
      → Good p false false (
          if authenticated
          then step p (pausing 0) [] (mute_microphone p (enough_rounds p) p.microphone_toggle)
          else step p typing
              (if p.name_input then name_typed ∷ [] else [])
              (step p (pausing 0) [] (mute_microphone p (enough_rounds p) p.microphone_toggle)))
  unfolding is_careful
  named_Good authenticated =
      if_holds (Good p false false) authenticated (λ signed_in. rest_Good)
        (λ guest.
          if_holds
            (λ done. Good p false false (
              step p typing done
                (step p (pausing 0) [] (mute_microphone p (enough_rounds p) p.microphone_toggle))))
            p.name_input
            (λ there.
              step-Good p typing false false false false (name_typed ∷ [])
                (step p (pausing 0) [] (mute_microphone p (enough_rounds p) p.microphone_toggle))
                (λ es. (λ k. k, refl, refl)) rest_Good)
            (λ missing. pass p typing false false _ rest_Good))

  join_and_record-Good :
      (authenticated : Bool)
      → Good p false false (join_and_record p authenticated (enough_rounds p))
  unfolding join_and_record is_careful
  join_and_record-Good authenticated =
      step-Good p (opening (meeting_url p.os)) false false false false
        (opened (meeting_url p.os) ∷ []) _ (λ es. (λ k. k, refl, refl))
        (pass p checking_blocked false false _ (
          if_holds (Good p false false) p.join_blocked_indicator
            (λ blocked.
              after-Good p false false false false
                (screenshot "meeting blocks anonymous guests (host quick access off)" ∷ [])
                (fail p "meeting blocks anonymous guests") (λ es. (λ k. k, refl, refl))
                (fail-Good p false "meeting blocks anonymous guests" refl
                  (IsHindered.blocked blocked)))
            (λ free. pass p dwelling false false _ (named_Good authenticated))))

  identified-Good :
      (problem : Option String) (r : Run)
      → is_authenticated p.os ≡ true
      → verify_consent_identity (account_display_name p) (environment p.os) ≡ problem
      → Good p false false r
      → Good p false false (identified p problem r)
  unfolding identified
  identified-Good none r auth e h = h
  identified-Good (some problem) r auth e h =
      fail-Good p false ("consent identity: " <> problem)
        (begins 5 none "consent identity: " problem (omega arith) refl) (other_identity auth e)

  check_session-Good :
      (r : Run)
      → is_authenticated p.os ≡ true
      → Good p false false r
      → Good p false false (check_session p r)
  unfolding check_session is_careful
  check_session-Good r auth h =
      if_holds (Good p false false) (p.raises (opening (session_check_url p)))
        (λ raises.
          fail-Good p false "google session check page failed to load" refl
            (no_session_page auth raises))
        (λ fine.
          after-Good p false false false false (opened (session_check_url p) ∷ []) _
            (λ es. (λ k. k, refl, refl))
            (pass p checking_session false false _ (
              if_holds (Good p false false) p.signed_in
                (λ signed. pass p reading_account false false _ (
                  identified-Good
                    (verify_consent_identity (account_display_name p) (environment p.os)) r auth
                    refl h))
                (λ out.
                  fail-Good p false
                    "google session invalid: no signed-in session visible (run make bot-login to sign in)"
                    refl (signed_out auth out)))))

  closing_after-Good : (r : Run) → Good p false false r → Good p false false (closing_after p r)
  unfolding closing_after is_careful
  closing_after-Good none h = h
  closing_after-Good (some (e, es)) (careful, came) =
      if_holds (Good p false false) (p.raises closing) (λ raises. (careful, stage_raised raises))
        (λ fine. (
          careful_end false false es closed (λ off joined. refl) careful,
          rw (calls_closed es, has_joined_closed false es) came,
        ))

  launched-Good :
      (r : Run)
      → Good p false false r
      → Good p false false (step p launching (launched ∷ []) (closing_after p r))
  unfolding is_careful
  launched-Good r h =
      step-Good p launching false false false false (launched ∷ []) (closing_after p r)
        (λ es. (λ k. k, refl, refl)) (closing_after-Good r h)

  run_authenticated-Good :
      (problem : Option String)
      → is_authenticated p.os ≡ true
      → validate_profile_dir p (profile_dir p.os) ≡ problem
      → Good p false false (run_authenticated p (enough_rounds p) problem)
  unfolding run_authenticated
  run_authenticated-Good none auth e =
      launched-Good _ (check_session-Good _ auth (join_and_record-Good true))
  run_authenticated-Good (some problem) auth e =
      fail-Good p false ("authenticated mode: " <> problem)
        (begins 5 none "authenticated mode: " problem (omega arith) refl) (no_profile auth e)

  pub run_browser-Good : Good p false false (run_browser p (enough_rounds p))
  unfolding run_browser
  run_browser-Good =
      if_holds (Good p false false) (is_authenticated p.os)
        (λ authenticated.
          run_authenticated-Good (validate_profile_dir p (profile_dir p.os)) authenticated refl)
        (λ guest. launched-Good _ (join_and_record-Good false))
