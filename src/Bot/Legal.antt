-- ===== src/Bot/Legal.antt =====
-- How the call loop can end, and what becomes of the recorder (bot/listeners.py, bot/README.md, Join
-- lifecycle).
use text.Mathlib.TextLemmas.{length-append}
use Prim.Native.String.{count}
use oreeai_notetaker.Prelude.{
  ℕ, suc, ◌+◌, ◌*◌, ◌<◌, ◌≡◌, refl, sym, ap, Bool, true, false, List, [], ◌∷◌, ◌++◌, Option, none,
  some, String, ◌<>◌, if◌then◌else◌, str_eq, eq_iff, arith, Bool-cases, inl, inr, ◌⊎◌,
}
use oreeai_notetaker.Bot.Loop.{
  Meeting, Watch, BotOutcome, Ending, outcome, raised, BotEvent, recorder_started, recorder_stopped,
  leave_clicked, announcement, debug_screenshot, Round, goes_on, over, post_init, bot_outcome,
  finish_recording, shot, after_stop,
}

-- A test, with what each branch is for.
pub if_holds {ℓ κ} :
    {A : Type ℓ} (P : A → Type κ) (b : Bool) {x y : A}
    → (b ≡ true → P x)
    → (b ≡ false → P y)
    → P (if b then x else y)
if_holds P true f g = f refl
if_holds P false f g = g refl

abbrev pub made : ℕ → Option String → String → Bool → BotOutcome
made exit_code end_reason reason recording_started = record {
  exit_code = exit_code;
  end_reason = end_reason;
  reason = reason;
  recording_started = recording_started;
}

-- The outcomes of the diagram, each with its exit code, its end reason, and whether there is a recording.
pub data Legal : BotOutcome → Type 0 where
  stopped_outside : {r : String} → Legal (made 0 none r false)
  never_admitted : {r : String} → Legal (made 2 none r false)
  failed_outside : {r : String} → Legal (made 5 none r false)
  stopped : {r : String} → Legal (made 0 none r true)
  call_ended : {r : String} → Legal (made 0 (some "call_ended") r true)
  removed : {r : String} → Legal (made 3 (some "removed") r true)
  alone : {r : String} → Legal (made 0 (some "alone") r true)
  give_up : {r : String} → Legal (made 0 (some "give_up") r true)
  empty_room : {r : String} → Legal (made 4 none r true)
  bot_error : {r : String} → Legal (made 5 none r true)

abbrev pub one : Bool → ℕ
one b = if b then 1 else 0

abbrev pub starts : List BotEvent → ℕ
starts [] = 0
starts (recorder_started ∷ es) = suc (starts es)
starts (_ ∷ es) = starts es

abbrev pub stops : List BotEvent → ℕ
stops [] = 0
stops (recorder_stopped ∷ es) = suc (stops es)
stops (_ ∷ es) = stops es

abbrev pub announcements : List BotEvent → ℕ
announcements [] = 0
announcements (announcement ∷ es) = suc (announcements es)
announcements (_ ∷ es) = announcements es

pub counts-append :
    (es fs : List BotEvent)
    → (starts (es ++ fs) ≡ starts es + starts fs)
      × (stops (es ++ fs) ≡ stops es + stops fs)
      × (announcements (es ++ fs) ≡ announcements es + announcements fs)
counts-append [] fs = ground arith
counts-append (recorder_started ∷ es) fs = ground (arith, counts-append es fs)
counts-append (recorder_stopped ∷ es) fs = ground (arith, counts-append es fs)
counts-append (leave_clicked ∷ es) fs = ground (arith, counts-append es fs)
counts-append (announcement ∷ es) fs = ground (arith, counts-append es fs)
counts-append (debug_screenshot s ∷ es) fs = ground (arith, counts-append es fs)

-- A reason that begins with a text is not empty.
pub reason_given : (s d : String) → 0 < count s → str_eq (s <> d) "" ≡ false
reason_given s d h = elim (Bool-cases (str_eq (s <> d) "")) [
  | inl e ↦ absurd (grew (ap count ((eq_iff (s <> d) "").0 e)))
  | inr e ↦ e
]
  where
    grew : count (s <> d) ≡ count "" → ⊥
    grew e = omega (arith, h, length-append s d, e)

-- What an ending is: a legal outcome that says whether there is a recording, or the exception of a
-- click on Leave or of the recorder's stop.
abbrev pub EndsWell : Meeting → Bool → Ending → Type 0
EndsWell m recording (outcome o) = Legal o × (o.recording_started ≡ recording)
EndsWell m recording raised =
    (k : ℕ) × ((m.leave_fails k ≡ true) ⊎ ((recording ≡ true) × (m.stop_raises k ≡ true)))

-- What a round does: while the loop goes on, the recorder is started at most once and never stopped;
-- when it is over, it has been stopped if it had been started.
abbrev pub Sound : Meeting → Watch → Round → Type 0
Sound m w (goes_on w' es) =
    (starts es + one w.recording_started ≡ one w'.recording_started)
    × (stops es ≡ 0)
    × (announcements es + one w.announced ≡ one w'.announced)
Sound m w (over e es) =
    (starts es ≡ 0)
    × (stops es ≡ one w.recording_started)
    × (announcements es ≡ 0)
    × EndsWell m w.recording_started e

module _ (m : Meeting) (start k : ℕ) (w : Watch) where
  pub made-EndsWell :
      (code : ℕ) (e : Option String) (r : String) (b : Bool)
      → post_init code e r ≡ true
      → w.recording_started ≡ b
      → Legal (made code e r b)
      → EndsWell m w.recording_started (bot_outcome code e r b)
  unfolding bot_outcome
  made-EndsWell code e r b h s legal = rw h (legal, sym s)

  -- The same after the recorder's stop.
  pub stopped-EndsWell :
      (code : ℕ) (e : Option String) (r : String)
      → post_init code e r ≡ true
      → w.recording_started ≡ true
      → Legal (made code e r true)
      → EndsWell m w.recording_started (after_stop m start k (bot_outcome code e r true))
  stopped-EndsWell code e r h s legal =
      if_holds (EndsWell m w.recording_started) (m.stop_raises k) (λ raises. (k, inr (s, raises)))
        (λ fine. made-EndsWell code e r true h s legal)

  pub finish_recording-Sound :
      (code : ℕ) (e : Option String) (r : String)
      → post_init code e r ≡ true
      → w.recording_started ≡ true
      → Legal (made code e r true)
      → Sound m w (finish_recording m start k r code e)
  unfolding finish_recording
  finish_recording-Sound code e r h s legal =
      if_holds (Sound m w) (m.page.leave_call_button (16 * k + 15))
        (λ there.
          if_holds (Sound m w) (m.leave_fails k)
            (λ fails. (refl, sym (ap one s), refl, (k, inl fails)))
            (λ fine. (refl, sym (ap one s), refl, stopped-EndsWell code e r h s legal)))
        (λ gone. (refl, sym (ap one s), refl, stopped-EndsWell code e r h s legal))

  pub shot-Sound : (what : String) (r : Round) → Sound m w r → Sound m w (shot m start k what r)
  shot-Sound what (goes_on w' es) h = h
  shot-Sound what (over e es) h = h
