-- ===== src/Bot/Careful.antt =====
-- Runs that touch the microphone before they join (bot/join_meet.py, bot/README.md).
use oreeai_notetaker.Prelude.{
  ◌≡◌, refl, ap, Bool, true, false, ◌&&◌, ◌||◌, List, [], ◌∷◌, ◌++◌, map, none, some, String,
}
use oreeai_notetaker.Bot.Loop.{
  BotOutcome, run_call_loop, Ending, outcome, raised, bot_outcome, post_init, BotEvent,
}
use oreeai_notetaker.Bot.Legal.{Legal, made, if_holds}
use oreeai_notetaker.Bot.Environ.{
  is_authenticated, profile_dir, verify_consent_identity, environment,
}
use oreeai_notetaker.Bot.Entry.{enough_rounds}
use oreeai_notetaker.Bot.Join.{
  Process, Stage, Step, launched, closed, name_typed, microphone_muted, microphone_already_off,
  camera_muted, join_clicked, opened, screenshot, printed, in_call, Run, after, step, fail, opening,
  own_meeting, validate_profile_dir, session_check_url, account_display_name,
}

-- The join is clicked only once the microphone is off, and the call loop acts only after the click.
unfoldable pub is_careful : Bool → Bool → List Step → Bool
is_careful off joined [] = true
is_careful off joined (microphone_muted ∷ es) = is_careful true joined es
is_careful off joined (microphone_already_off ∷ es) = is_careful true joined es
is_careful off joined (join_clicked ∷ es) = off && is_careful off true es
is_careful off joined (in_call e ∷ es) = joined && is_careful off joined es
is_careful off joined (launched ∷ es) = is_careful off joined es
is_careful off joined (closed ∷ es) = is_careful off joined es
is_careful off joined (name_typed ∷ es) = is_careful off joined es
is_careful off joined (camera_muted ∷ es) = is_careful off joined es
is_careful off joined (opened s ∷ es) = is_careful off joined es
is_careful off joined (screenshot s ∷ es) = is_careful off joined es
is_careful off joined (printed s ∷ es) = is_careful off joined es

abbrev pub call_of : Step → List BotEvent
call_of (in_call e) = e ∷ []
call_of _ = []

-- What the call loop did.
abbrev pub calls : List Step → List BotEvent
calls [] = []
calls (s ∷ es) = call_of s ++ calls es

abbrev pub is_join : Step → Bool
is_join join_clicked = true
is_join _ = false

-- Whether the join has been clicked in the end.
abbrev pub has_joined : Bool → List Step → Bool
has_joined joined [] = joined
has_joined joined (s ∷ es) = has_joined (is_join s || joined) es

-- What keeps the bot from the join.
pub data IsHindered (p : Process) : Type 0 where
  blocked : p.join_blocked_indicator ≡ true → IsHindered p
  no_microphone : p.microphone_toggle ≡ none → IsHindered p
  no_join_button : p.join_button ≡ false → IsHindered p
  no_profile :
      {problem : String}
      → is_authenticated p.os ≡ true
      → validate_profile_dir p (profile_dir p.os) ≡ some problem
      → IsHindered p
  no_session_page :
      is_authenticated p.os ≡ true → p.raises (opening (session_check_url p)) ≡ true → IsHindered p
  signed_out : is_authenticated p.os ≡ true → p.signed_in ≡ false → IsHindered p
  other_identity :
      {problem : String}
      → is_authenticated p.os ≡ true
      → verify_consent_identity (account_display_name p) (environment p.os) ≡ some problem
      → IsHindered p

-- Where an ending of the browser's part comes from, with what the call loop did and whether the join
-- was clicked: the bot was kept from the join, or the call loop ended so, or something raised.
pub data Came (p : Process) : Ending → List BotEvent → Bool → Type 0 where
  before : {r : String} → IsHindered p → Came p (outcome (made 5 none r false)) [] false
  called :
      {o : BotOutcome} {es : List BotEvent}
      → run_call_loop (own_meeting p) (enough_rounds p) ≡ some (outcome o, es)
      → Legal o
      → Came p (outcome o) es true
  call_raised :
      {es : List BotEvent} (more : List BotEvent)
      → run_call_loop (own_meeting p) (enough_rounds p) ≡ some (raised, es)
      → Came p raised (es ++ more) true
  stage_raised :
      {stage : Stage} {es : List BotEvent} {joined : Bool}
      → p.raises stage ≡ true
      → Came p raised es joined

-- A run that is over, and careful from some state on.
abbrev pub Good : Process → Bool → Bool → Run → Type 0
Good p off joined none = ⊥
Good p off joined (some (e, es)) =
    (is_careful off joined es ≡ true) × Came p e (calls es) (has_joined joined es)

-- Steps that lead from one state to another, and are none of the call loop.
abbrev pub Leads : Bool → Bool → Bool → Bool → List Step → Type 0
Leads off joined off' joined' done =
    (es : List Step)
    → (is_careful off' joined' es ≡ true → is_careful off joined (done ++ es) ≡ true)
      × (calls (done ++ es) ≡ calls es)
      × (has_joined joined (done ++ es) ≡ has_joined joined' es)

pub after-Good :
    (p : Process) (off joined off' joined' : Bool) (done : List Step) (r : Run)
    → Leads off joined off' joined' done
    → Good p off' joined' r
    → Good p off joined (after done r)
unfolding after
after-Good p off joined off' joined' done none leads h = h
after-Good p off joined off' joined' done (some (e, es)) leads (careful, came) =
    let (keeps, same, ends) = leads es in (keeps careful, rw (same, ends) came)

pub calls_closed : (es : List Step) → calls (es ++ (closed ∷ [])) ≡ calls es
calls_closed [] = refl
calls_closed (s ∷ es) = ap (λ rest. call_of s ++ rest) (calls_closed es)

pub has_joined_closed :
    (joined : Bool) (es : List Step)
    → has_joined joined (es ++ (closed ∷ [])) ≡ has_joined joined es
has_joined_closed joined [] = refl
has_joined_closed joined (s ∷ es) = has_joined_closed (is_join s || joined) es

pub calls_of_calls :
    (es : List BotEvent) (more : List Step) → calls (map in_call es ++ more) ≡ es ++ calls more
calls_of_calls [] more = refl
calls_of_calls (e ∷ es) more = ap (λ rest. e ∷ rest) (calls_of_calls es more)

pub joined_by_calls :
    (es : List BotEvent) (more : List Step)
    → has_joined true (map in_call es ++ more) ≡ has_joined true more
joined_by_calls [] more = refl
joined_by_calls (e ∷ es) more = joined_by_calls es more

-- The steps that the call loop does in a call, and what comes after them.
pub in_call_careful :
    (es : List BotEvent) (more : List Step)
    → is_careful true true more ≡ true
    → is_careful true true (map in_call es ++ more) ≡ true
unfolding is_careful
in_call_careful [] more h = h
in_call_careful (e ∷ es) more h = in_call_careful es more h

pub careful_end :
    (off joined : Bool) (es : List Step) (last : Step)
    → ((off' joined' : Bool) → is_careful off' joined' (last ∷ []) ≡ true)
    → is_careful off joined es ≡ true
    → is_careful off joined (es ++ (last ∷ [])) ≡ true
unfolding is_careful
careful_end off joined [] last l h = l off joined
careful_end off joined (microphone_muted ∷ es) last l h = careful_end true joined es last l h
careful_end off joined (microphone_already_off ∷ es) last l h = careful_end true joined es last l h
careful_end true joined (join_clicked ∷ es) last l h = careful_end true true es last l h
careful_end false joined (join_clicked ∷ es) last l h = h
careful_end off true (in_call e ∷ es) last l h = careful_end off true es last l h
careful_end off false (in_call e ∷ es) last l h = h
careful_end off joined (launched ∷ es) last l h = careful_end off joined es last l h
careful_end off joined (closed ∷ es) last l h = careful_end off joined es last l h
careful_end off joined (name_typed ∷ es) last l h = careful_end off joined es last l h
careful_end off joined (camera_muted ∷ es) last l h = careful_end off joined es last l h
careful_end off joined (opened s ∷ es) last l h = careful_end off joined es last l h
careful_end off joined (screenshot s ∷ es) last l h = careful_end off joined es last l h
careful_end off joined (printed s ∷ es) last l h = careful_end off joined es last l h

pub fail-Good :
    (p : Process) (off : Bool) (reason : String)
    → post_init 5 none reason ≡ true
    → IsHindered p
    → Good p off false (fail p reason)
unfolding fail bot_outcome is_careful
fail-Good p off reason h hindered = rw h (refl, before hindered)

pub step-Good :
    (p : Process) (stage : Stage) (off joined off' joined' : Bool) (done : List Step) (r : Run)
    → Leads off joined off' joined' done
    → Good p off' joined' r
    → Good p off joined (step p stage done r)
unfolding step is_careful
step-Good p stage off joined off' joined' done r leads h =
    if_holds (Good p off joined) (p.raises stage) (λ raises. (refl, stage_raised raises))
      (λ fine. after-Good p off joined off' joined' done r leads h)

-- A step that does nothing that matters.
pub pass :
    (p : Process) (stage : Stage) (off joined : Bool) (r : Run)
    → Good p off joined r
    → Good p off joined (step p stage [] r)
pass p stage off joined r h =
    step-Good p stage off joined off joined [] r (λ es. (λ k. k, refl, refl)) h
