-- ===== src/Zoom/States.antt =====
-- bot/states_zoom.py: the predicates over Zoom's web client.
use oreeai_notetaker.Prelude.{
  ℕ, ◌+◌, Bool, true, false, Option, none, some, String, ◌<>◌, show_nat, ltb, ◌==◌, if◌then◌else◌,
}

-- The numbers that the three patterns find in a text, and the one that `_BARE_COUNT_RE` matches.
pub record Counts : Type 0 where
  pub bracket : Option ℕ
  pub participants : Option ℕ
  pub leading : Option ℕ
  pub bare : Option ℕ

-- The participants control: its label and its text, and its `_locator_detail`.
pub record CountControl : Type 0 where
  pub label : Counts
  pub text : Counts
  pub detail : String

-- What the selectors find at a moment; of a control that is there, its `_locator_detail`.
pub record Page : Type 0 where
  pub leave_button : ℕ → Option String
  pub end_button : ℕ → Option String
  pub name_input : ℕ → Option String
  pub join_button : ℕ → Option String
  pub waiting_room_indicator : ℕ → Option String
  pub meeting_not_started_indicator : ℕ → Option String
  pub removed_dialog : ℕ → Option String
  pub removed_indicator : ℕ → Option String
  pub meeting_ended_dialog : ℕ → Option String
  pub call_ended_indicator : ℕ → Option String
  pub participant_count_button : ℕ → Option CountControl
  pub alone_hint : ℕ → Option String
  pub passcode_input : ℕ → Option String
  pub passcode_required_indicator : ℕ → Option String
  pub sign_in_required_indicator : ℕ → Option String
  pub only_authenticated_indicator : ℕ → Option String
  pub desktop_app_required_indicator : ℕ → Option String
  pub audio_join_button : ℕ → Bool

abbrev either {ℓ} : {A : Type ℓ} → Option A → Option A → Option A
either none b = b
either (some a) b = some a

-- What a predicate answers for one selector.
abbrev pub seen : String → String → Option String → Bool × String
seen prefix otherwise none = (false, otherwise)
seen prefix otherwise (some d) = (true, prefix <> d)

-- A match in either of the texts, by the patterns in their order, and then a bare number.
abbrev pub count_found : CountControl → Option ℕ
count_found c =
    either
      (either (either c.label.bracket (either c.label.participants c.label.leading))
        (either c.text.bracket (either c.text.participants c.text.leading)))
      (either c.label.bare c.text.bare)

-- The selectors are asked one after the other, from the moment `at` on.
module _ (page : Page) where
  unfoldable pub in_call_controls : ℕ → Bool × String
  in_call_controls at = elim (page.leave_button at) [
    | some d ↦ (true, "in call: " <> d)
    | none ↦ seen "in call: " "leave/end control absent" (page.end_button (at + 1))
  ]

  unfoldable pub is_in_waiting_room : ℕ → Bool × String
  is_in_waiting_room at =
      seen "waiting for admission: " "no waiting-room notice visible"
        (page.waiting_room_indicator at)

  unfoldable pub is_meeting_not_started : ℕ → Bool × String
  is_meeting_not_started at =
      seen "meeting not started: " "no meeting-not-started notice visible"
        (page.meeting_not_started_indicator at)

  unfoldable pub is_prejoin : ℕ → Bool × String
  unfolding in_call_controls
  is_prejoin at =
      let (controls, controls_detail) = in_call_controls at in
      if controls
      then (false, "in-call controls visible (" <> controls_detail <> ")")
      else elim (page.waiting_room_indicator (at + 2)) [
        | some d ↦ (false, "waiting-room notice visible")
        | none ↦ elim (page.meeting_not_started_indicator (at + 3)) [
          | some d ↦ (false, "meeting-not-started notice visible")
          | none ↦ elim (page.name_input (at + 4)) [
            | some d ↦ (true, "pre-join form: " <> d)
            | none ↦
                seen "pre-join form: " "no pre-join controls visible" (page.join_button (at + 5))
          ]
        ]
      ]

  unfoldable pub is_admitted : ℕ → Bool × String
  unfolding in_call_controls
  is_admitted at = elim (page.waiting_room_indicator at) [
    | some d ↦ (false, "waiting-room notice overrides the in-call controls")
    | none ↦ elim (page.meeting_not_started_indicator (at + 1)) [
      | some d ↦ (false, "meeting-not-started notice overrides the in-call controls")
      | none ↦
          let (controls, controls_detail) = in_call_controls (at + 2) in
          if controls then (true, controls_detail) else (false, "leave/end control absent")
    ]
  ]

  unfoldable pub is_removed : ℕ → Bool × String
  unfolding in_call_controls
  is_removed at = elim (page.removed_dialog at) [
    | some d ↦ (true, "removed from meeting (dialog): " <> d)
    | none ↦ elim (page.removed_indicator (at + 1)) [
      | none ↦ (false, "no removal notice visible")
      | some d ↦
          if (in_call_controls (at + 2)).0
          then (false, "removal text visible mid-call with in-call controls (chat copy?)")
          else (true, "removed from meeting: " <> d)
    ]
  ]

  unfoldable pub is_call_ended : ℕ → Bool × String
  unfolding in_call_controls
  is_call_ended at = elim (page.meeting_ended_dialog at) [
    | some d ↦ (true, "call ended (dialog): " <> d)
    | none ↦ elim (page.call_ended_indicator (at + 1)) [
      | none ↦ (false, "no call-ended notice visible")
      | some d ↦
          if (in_call_controls (at + 2)).0
          then (false, "ended text visible mid-call with in-call controls (chat copy?)")
          else (true, "call ended: " <> d)
    ]
  ]

  unfoldable pub participant_count : ℕ → Option ℕ × String
  unfolding in_call_controls show_nat
  participant_count at =
      if (in_call_controls at).0
      then elim (page.participant_count_button (at + 2)) [
        | none ↦ (none, "participant-count control absent")
        | some c ↦ elim (count_found c) [
          | none ↦ (none, "participant count unavailable (" <> c.detail <> ")")
          | some n ↦ (
            some n,
            show_nat n <> " " <> (if n == 1 then "participant" else "participants") <> " in call",
          )
        ]
      ]
      else (none, "not in a call")

  unfoldable pub bot_alone_in_call : ℕ → Bool × String
  unfolding in_call_controls participant_count
  bot_alone_in_call at =
      if (in_call_controls at).0
      then (let (count, detail) = participant_count (at + 2) in
          let hint = page.alone_hint (at + 5) in
          let by_hint : Bool × String = elim hint [
            | some d ↦ (true, "only the bot remains (" <> d <> ")")
            | none ↦ (false, "not enough evidence the bot is alone (" <> detail <> ")")
          ] in
          elim count [
            | none ↦ by_hint
            | some n ↦
                if n == 1
                then (
                  true,
                  elim hint [
                    | some d ↦ "only the bot remains (" <> detail <> "; " <> d <> ")"
                    | none ↦ "only the bot remains (" <> detail <> ")"
                  ],
                )
                else if ltb 1 n
                then (false, "other participants remain (" <> detail <> ")")
                else by_hint
          ])
      else (false, "not in a call")

  unfoldable pub is_passcode_screen : ℕ → Bool × String
  is_passcode_screen at = elim (page.passcode_input at) [
    | some d ↦ (true, "passcode required: " <> d)
    | none ↦
        seen "passcode required: " "no passcode prompt visible"
          (page.passcode_required_indicator (at + 1))
  ]

  unfoldable pub is_sign_in_required : ℕ → Bool × String
  is_sign_in_required at =
      seen "sign-in required: " "no sign-in wall visible" (page.sign_in_required_indicator at)

  unfoldable pub is_only_authenticated : ℕ → Bool × String
  is_only_authenticated at =
      seen "authenticated-only meeting: " "no authenticated-only notice visible"
        (page.only_authenticated_indicator at)

  unfoldable pub is_desktop_app_required : ℕ → Bool × String
  is_desktop_app_required at =
      seen "desktop app required: " "no desktop-app-required notice visible"
        (page.desktop_app_required_indicator at)
