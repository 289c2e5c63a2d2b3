-- ===== src/Lifecycle/History.antt =====
-- What holds of a call over its whole life, whatever is requested of `CallService`
-- (src/oreeai_notetaker/services/call.py).
use native.Mathlib.Decide.{ℕ_discrete}
use oreeai_notetaker.Prelude.{
  ℕ, ◌+◌, ◌≤◌, ◌≡◌, refl, List, [], ◌∷◌, Option, none, some, arith, if◌then◌else◌, subst, sym, ◌∙◌,
  ap, true,
}
use oreeai_notetaker.Call.{
  CallStatus, queued, joining, recording, processing, status_eq, is_terminal, Call, Change, Table,
  get, put, get-create_old, set_attrs,
}
use oreeai_notetaker.Lifecycle.{new_call}
use oreeai_notetaker.Lifecycle.Move.{Edge, legal_iff, moved, put-moved, status-moved}
use oreeai_notetaker.Lifecycle.Runs.{
  Request, step, run, Changed, kept, created, advanced, step-Changed,
}

-- What became of one row in a transaction: nothing, or one edge.
pub data Kept (c c' : Call) : Type 0 where
  same : c' ≡ c → Kept c c'
  went_along :
      (now : ℕ) (new : CallStatus) (changes : List Change)
      → Edge c.status new
      → c' ≡ moved now new changes c
      → Kept c c'

pub Changed-Kept :
    {limit : ℕ} {t t' : Table} (i : ℕ) (c : Call)
    → Changed limit t t'
    → get i t ≡ some c
    → (c' : Call) × (get i t' ≡ some c') × Kept c c'
Changed-Kept i c (kept e) h = (c, subst (λ u. get i u ≡ some c) (sym e) h, same refl)
Changed-Kept {t} i c (created now j d room e) h = (
  c,
  subst (λ u. get i u ≡ some c) (sym e) (get-create_old i (new_call now j d) t c h),
  same refl,
)
Changed-Kept {t} {t'} i c (advanced now j new changes x found legal e) h = elim (ℕ_discrete i j) [
  | yes hit ↦ (moved now new changes c, at hit, went_along now new changes (edge hit) refl)
  | no miss ↦ (c, subst (λ u. get i u ≡ some c) (sym e) (others miss), same refl)
]
  where
    row : i ≡ j → x ≡ c
    row hit = ground arith

    edge : i ≡ j → Edge c.status new
    edge hit = subst (λ y. Edge y.status new) (row hit) ((legal_iff x.status new).0 legal)

    at : i ≡ j → get i t' ≡ some (moved now new changes c)
    at hit = rw (e, hit, ← row hit) (put-moved now j new changes t x found).0

    others : (i ≡ j → ⊥) → get i (put (moved now new changes x) t) ≡ some c
    others miss = (put-moved now j new changes t x found).1 i miss ∙ h

-- The lifecycle's reachability.
pub data StatusPath : CallStatus → CallStatus → Type 0 where
  stay : {s : CallStatus} → StatusPath s s
  along : {s t u : CallStatus} → Edge s t → StatusPath t u → StatusPath s u

-- What the API's client gave when it queued the call, and the row's own identity.
pub record SameOrigin (c c' : Call) : Type 0 where
  pub id : c'.id ≡ c.id
  pub created_at : c'.created_at ≡ c.created_at
  pub meeting_url : c'.meeting_url ≡ c.meeting_url
  pub user_ref : c'.user_ref ≡ c.user_ref
  pub consent_ack : c'.consent_ack ≡ c.consent_ack
  pub webhook_url : c'.webhook_url ≡ c.webhook_url
  pub webhook_secret : c'.webhook_secret ≡ c.webhook_secret

SameOrigin-set_attrs :
    (xs : List Change) (c c' : Call) → SameOrigin c c' → SameOrigin c (set_attrs xs c')
SameOrigin-set_attrs [] c c' h = h
SameOrigin-set_attrs (Change.set_failure_reason r ∷ xs) c c' h =
    SameOrigin-set_attrs xs c _ (assumption)
SameOrigin-set_attrs (Change.set_end_reason r ∷ xs) c c' h =
    SameOrigin-set_attrs xs c _ (assumption)
SameOrigin-set_attrs (Change.set_audio_url u ∷ xs) c c' h = SameOrigin-set_attrs xs c _ (assumption)
SameOrigin-set_attrs (Change.set_bot_container_name n ∷ xs) c c' h =
    SameOrigin-set_attrs xs c _ (assumption)
SameOrigin-set_attrs (Change.set_transcript s ∷ xs) c c' h =
    SameOrigin-set_attrs xs c _ (assumption)

Kept-SameOrigin : {c c' : Call} → Kept c c' → SameOrigin c c'
Kept-SameOrigin {c} (same e) = rw e (ground arith)
Kept-SameOrigin {c} (went_along now new changes edge e) =
    let h = SameOrigin-set_attrs changes c (record c { status = new }) (ground arith) in
    rw e (record {
      id = h.id;
      created_at = h.created_at;
      meeting_url = h.meeting_url;
      user_ref = h.user_ref;
      consent_ack = h.consent_ack;
      webhook_url = h.webhook_url;
      webhook_secret = h.webhook_secret;
    })

SameOrigin-trans : {a b c : Call} → SameOrigin a b → SameOrigin b c → SameOrigin a c
SameOrigin-trans h k = record {
  id = k.id ∙ h.id;
  created_at = k.created_at ∙ h.created_at;
  meeting_url = k.meeting_url ∙ h.meeting_url;
  user_ref = k.user_ref ∙ h.user_ref;
  consent_ack = k.consent_ack ∙ h.consent_ack;
  webhook_url = k.webhook_url ∙ h.webhook_url;
  webhook_secret = k.webhook_secret ∙ h.webhook_secret;
}

pub Kept-StatusPath :
    {c c' : Call} {s : CallStatus} → Kept c c' → StatusPath c'.status s → StatusPath c.status s
Kept-StatusPath {c} {c'} {s} (same e) p = subst (λ x. StatusPath x.status s) e p
Kept-StatusPath {c} {c'} {s} (went_along now new changes edge e) p =
    along edge
      (subst (λ x. StatusPath x s) (ap (λ y. y.status) e ∙ status-moved now new changes c) p)

-- A call is never lost: whatever is requested after it was queued, its row is still there, its
-- status was reached along edges of the lifecycle, and what its client gave is as it was.
pub run-StatusPath :
    (limit i : ℕ) (t : Table) (rs : List (ℕ × Request)) (c : Call)
    → get i t ≡ some c
    → (c' : Call) × (get i (run limit t rs) ≡ some c')
      × StatusPath c.status c'.status
      × SameOrigin c c'
unfolding run
run-StatusPath limit i t [] c h = (c, h, stay, ground arith)
run-StatusPath limit i t (r ∷ rs) c h =
    let (c₁, found, keeps) = Changed-Kept i c (step-Changed limit t r) h in
    let (c₂, found₂, path, origin) = run-StatusPath limit i (step limit t r) rs c₁ found in
    (c₂, found₂, Kept-StatusPath keeps path, SameOrigin-trans (Kept-SameOrigin keeps) origin)

Kept-terminal : {c c' : Call} → is_terminal c.status ≡ true → Kept c c' → c' ≡ c
Kept-terminal h (same e) = e
Kept-terminal {c} h (went_along now new changes edge e) = absurd (no_edge c.status new h edge)
  where
    no_edge : (a b : CallStatus) → is_terminal a ≡ true → Edge a b → ⊥
    no_edge a b h Edge.join = cc
    no_edge a b h Edge.start_recording = cc
    no_edge a b h Edge.process = cc
    no_edge a b h Edge.finish = cc
    no_edge a b h (Edge.fail active) = ground arith

-- `done` and `failed` are final: no later request to the call service changes anything in the row.
pub run_terminal :
    (limit i : ℕ) (t : Table) (rs : List (ℕ × Request)) (c : Call)
    → get i t ≡ some c
    → is_terminal c.status ≡ true
    → get i (run limit t rs) ≡ some c
unfolding run
run_terminal limit i t [] c h e = h
run_terminal limit i t (r ∷ rs) c h e =
    let (c', found, keeps) = Changed-Kept i c (step-Changed limit t r) h in
    run_terminal limit i (step limit t r) rs c
      (subst (λ x. get i (step limit t r) ≡ some x) (Kept-terminal e keeps) found) e

-- The edges that are left to a call.
abbrev pub remaining : CallStatus → ℕ
remaining queued = 4
remaining joining = 3
remaining recording = 2
remaining processing = 1
remaining _ = 0

pub status_at : ℕ → Table → Option CallStatus
status_at i t = elim (get i t) [ none ↦ none | some c ↦ some c.status ]

status_at_found : (i : ℕ) (t : Table) (c : Call) → get i t ≡ some c → status_at i t ≡ some c.status
unfolding status_at
status_at_found i t c h = ground arith

abbrev differ : Option CallStatus → Option CallStatus → ℕ
differ (some a) (some b) = if status_eq a b then 0 else 1
differ _ _ = 0

-- How often the status of the call changed.
transitions : ℕ → ℕ → Table → List (ℕ × Request) → ℕ
transitions limit i t [] = 0
transitions limit i t (r ∷ rs) =
    differ (status_at i t) (status_at i (step limit t r)) + transitions limit i (step limit t r) rs

Edge-remaining : (a b : CallStatus) → Edge a b → 1 + remaining b ≤ remaining a
Edge-remaining a b Edge.join = omega arith
Edge-remaining a b Edge.start_recording = omega arith
Edge-remaining a b Edge.process = omega arith
Edge-remaining a b Edge.finish = omega arith
Edge-remaining a b (Edge.fail active) = ground arith

Kept-remaining :
    (c c' : Call)
    → Kept c c'
    → differ (some c.status) (some c'.status) + remaining c'.status ≤ remaining c.status
Kept-remaining c c' (same e) = rw e (ground arith)
Kept-remaining c c' (went_along now new changes edge e) =
    rw (e, status-moved now new changes c) (ground (arith, Edge-remaining c.status new edge))

-- In any sequence of transactions a call changes its status at most as often as the longest way that is
-- left to it has edges: four times from `queued`, three from `joining`, two from `recording`, once
-- from `processing`, never from `done` or `failed`.
transitions_bounded :
    (limit i : ℕ) (t : Table) (rs : List (ℕ × Request)) (c : Call)
    → get i t ≡ some c
    → transitions limit i t rs ≤ remaining c.status
unfolding transitions
transitions_bounded limit i t [] c h = omega arith
transitions_bounded limit i t (r ∷ rs) c h =
    let (c', found, keeps) = Changed-Kept i c (step-Changed limit t r) h in
    rw (status_at_found i t c h, status_at_found i (step limit t r) c' found)
      (omega (
        arith,
        Kept-remaining c c' keeps,
        transitions_bounded limit i (step limit t r) rs c' found,
      ))
