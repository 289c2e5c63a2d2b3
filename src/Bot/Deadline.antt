-- ===== src/Bot/Deadline.antt =====
-- The call loop ends (bot/listeners.py): the waiting room and the recording have a deadline each.
use oreeai_notetaker.Prelude.{
  ℕ, zero, suc, ◌+◌, ◌*◌, ◌≤◌, ◌<◌, ◌≡◌, inl, inr, ◌∙◌, refl, Bool, true, false, not, List, ◌++◌,
  Option, none, some, String, leb, arith,
}
use oreeai_notetaker.Bot.States.{is_admitted, is_removed, is_call_ended}
use oreeai_notetaker.Bot.Loop.{
  Meeting, Watch, Ending, BotEvent, Round, goes_on, over, finish_recording, handle_stop, admit,
  wait_for_admission, watch_call, poll, rounds, run_call_loop, initial, shot,
}
use oreeai_notetaker.Bot.Legal.{if_holds, Sound, EndsWell, one, starts, stops, announcements}
use oreeai_notetaker.Bot.Timely.{Timely, InTime, Timely-InTime, ticks_enough}
use oreeai_notetaker.Bot.Rounds.{poll-Sound, RunsWell, over_RunsWell, after_round}
use oreeai_notetaker.Bot.Quiet.{Quiet, watch_room-Quiet, watch_controls-Quiet}

abbrev Sooner : Meeting → ℕ → ℕ → Watch → Round → Type 0
Sooner m start k w (goes_on w' es) = Timely m.timeouts m.clock start k w w'
Sooner m start k w (over e es) = Unit {0}

module _ (m : Meeting) (start k : ℕ) (w : Watch) where
  -- While it records, a round that goes on brings the deadline nearer.
  recording-Sooner :
      (r : Round)
      → w.recording_started ≡ true
      → leb (w.admitted_at + m.timeouts.max_record_s) (m.clock k) ≡ false
      → Quiet w r
      → Sooner m start k w r
  recording-Sooner (goes_on w' es) s early (same, at) = inl (s, same ∙ s, at, ground (arith, early))
  recording-Sooner (over e es) s early q = tt

  finish-Sooner :
      (r : String) (code : ℕ) (e : Option String)
      → Sooner m start k w (finish_recording m start k r code e)
  unfolding finish_recording
  finish-Sooner r code e =
      if_holds (Sooner m start k w) (m.page.leave_call_button (16 * k + 15))
        (λ there. if_holds (Sooner m start k w) (m.leave_fails k) (λ x. tt) (λ x. tt)) (λ gone. tt)

  shot-Sooner :
      (what : String) (r : Round)
      → Sooner m start k w r
      → Sooner m start k w (shot m start k what r)
  shot-Sooner what (goes_on w' es) h = h
  shot-Sooner what (over e es) h = tt

  watch_call-Sooner : w.recording_started ≡ true → Sooner m start k w (watch_call m start k w)
  unfolding watch_call
  watch_call-Sooner s =
      if_holds (Sooner m start k w) (is_removed m.page (16 * k)).0 (λ x. tt)
        (λ here.
          if_holds (Sooner m start k w) (is_call_ended m.page (16 * k + 1)).0 (λ x. tt)
            (λ going.
              if_holds (Sooner m start k w) (not (m.recorder_is_running k))
                (λ dead.
                  shot-Sooner "recorder process ended" _
                    (finish-Sooner "parec died mid-recording; leaving with a truncated WAV" 5 none))
                (λ running.
                  if_holds (Sooner m start k w)
                    (leb (w.admitted_at + m.timeouts.max_record_s) (m.clock k))
                    (λ late. finish-Sooner _ 0 (some "give_up"))
                    (λ early. recording-Sooner _ s early (
                      if_holds (Quiet w) (is_admitted m.page (16 * k + 2)).0
                        (λ admitted. watch_room-Quiet m start k w)
                        (λ unsure. watch_controls-Quiet m start k w))))))

  admit-Sooner : w.recording_started ≡ false → Sooner m start k w (admit m start k w)
  unfolding admit
  admit-Sooner s =
      if_holds (Sooner m start k w) (m.recorder_fails k) (λ x. tt)
        (λ fine. inr (inl (s, refl, refl)))

  wait_for_admission-Sooner :
      w.recording_started ≡ false → Sooner m start k w (wait_for_admission m start k w)
  unfolding wait_for_admission
  wait_for_admission-Sooner s =
      if_holds (Sooner m start k w) (m.page.join_blocked_indicator (16 * k + 4)) (λ x. tt)
        (λ clear.
          if_holds (Sooner m start k w) (leb (start + m.timeouts.waiting_room_s) (m.clock k))
            (λ late. tt)
            (λ early.
              if_holds (Sooner m start k w) (leb w.next_admission_evidence (m.clock k))
                (λ due. inr (inr (s, s, ground (arith, early))))
                (λ not_due. inr (inr (s, s, ground (arith, early))))))

  poll-Sooner : Sooner m start k w (poll m start k w)
  unfolding poll handle_stop
  poll-Sooner =
      if_holds (Sooner m start k w) (m.stop_requested k)
        (λ stop.
          if_holds (Sooner m start k w) w.recording_started
            (λ s. finish-Sooner "stop requested" 0 none) (λ s. tt))
        (λ go.
          if_holds (Sooner m start k w) w.recording_started (λ s. watch_call-Sooner s)
            (λ s.
              if_holds (Sooner m start k w) (is_admitted m.page (16 * k + 2)).0
                (λ admitted. admit-Sooner s) (λ outside. wait_for_admission-Sooner s)))

module _ (m : Meeting) (start J K : ℕ) (on : (n : ℕ) → m.clock n ≤ m.clock (suc n))
    (waited : start + m.timeouts.waiting_room_s ≤ m.clock J) (before : J < K)
    (recorded : m.clock J + m.timeouts.max_record_s ≤ m.clock K) where
  -- The rounds up to `K` bring a run to an end, and to a good one.
  rounds-RunsWell :
      (fuel k : ℕ) (w : Watch)
      → k + fuel ≡ suc K
      → InTime m.clock J K k w
      → (e : Ending) × (es : List BotEvent) × (rounds m start fuel k w ≡ some (e, es))
        × RunsWell m w e es
  unfolding rounds
  rounds-RunsWell zero k w left h = absurd (never h.0)
    where
      never : k ≤ K → ⊥
      never h = omega (arith, h, left)
  rounds-RunsWell (suc fuel) k w left h =
      go (poll m start k w) refl (poll-Sound m start k w) (poll-Sooner m start k w)
        (λ w' h'. rounds-RunsWell fuel (suc k) w' (omega (arith, left)) h')
    where
      go :
          (r : Round)
          → poll m start k w ≡ r
          → Sound m w r
          → Sooner m start k w r
          → ((w' : Watch)
              → InTime m.clock J K (suc k) w'
              → (e : Ending) × (es : List BotEvent) × (rounds m start fuel (suc k) w'
                  ≡ some (e, es))
                × RunsWell m w' e es)
          → (e : Ending) × (es : List BotEvent) × (rounds m start (suc fuel) k w ≡ some (e, es))
            × RunsWell m w e es
      go (over e es) q sound sooner later =
          (e, es, rw (q, rounds) refl, over_RunsWell m w e es sound)
      go (goes_on w' es) q sound sooner later =
          let (e, more, found, well) = later w' (
            Timely-InTime m.timeouts m.clock start J K on waited before recorded k w w' h sooner) in
          (e, es ++ more, rw (q, rounds) (rw found refl), after_round m w w' es more e sound well)

-- If the clock never goes back, if the waiting-room timeout is over by the clock of the round `j`, and
-- if the maximum recording duration after that is over by the clock of a later round `k`, then the
-- call loop is over by the round `k`, however long its rounds take. It ends with an outcome of the
-- lifecycle's diagram, exit code and end reason as there, that says whether there is a recording, or
-- with the exception of a click on Leave that fails or of the recorder's stop, and with nothing else.
-- The recorder has been started at most once, its stop has been called if it was, and `announce` has
-- been called at most once. Exceptions of the page's predicates are not among what can happen here.
pub run_call_loop_in_time :
    (m : Meeting) (j k : ℕ)
    → ((n : ℕ) → m.clock n ≤ m.clock (suc n))
    → 1 ≤ j
    → j < k
    → m.clock 0 + m.timeouts.waiting_room_s ≤ m.clock j
    → m.clock j + m.timeouts.max_record_s ≤ m.clock k
    → (e : Ending) × (es : List BotEvent) × (run_call_loop m k ≡ some (e, es))
      × (b : Bool) × EndsWell m b e
      × (starts es ≡ one b)
      × (stops es ≡ one b)
      × (announcements es ≤ 1)
unfolding run_call_loop
run_call_loop_in_time m j k on first before waited recorded =
    let (e, es, found, (b, ends, s, p, a)) =
      rounds-RunsWell m (m.clock 0) j k on waited before recorded k 1 (initial (m.clock 0))
        (omega arith) (omega (arith, first, before), inr (refl, first)) in
    (e, es, found, b, ends, omega (arith, s), p, omega (arith, a))

-- With rounds of at least a microsecond, the two timeouts bound the number of rounds, too.
pub run_call_loop-RunsWell :
    (m : Meeting)
    → ((n : ℕ) → m.clock n < m.clock (suc n))
    → (e : Ending) × (es : List BotEvent) × (run_call_loop m
          (m.timeouts.waiting_room_s + m.timeouts.max_record_s + 2)
        ≡ some (e, es))
      × (b : Bool) × EndsWell m b e
      × (starts es ≡ one b)
      × (stops es ≡ one b)
      × (announcements es ≤ 1)
run_call_loop-RunsWell m tick =
    let (waited, recorded) = ticks_enough m.timeouts m.clock tick in
    run_call_loop_in_time m (m.timeouts.waiting_room_s + 1)
      (m.timeouts.waiting_room_s + m.timeouts.max_record_s + 2) (λ n. omega (arith, tick n))
      (omega arith) (omega arith) waited recorded
