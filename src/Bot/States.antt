-- ===== src/Bot/States.antt =====
-- bot/states.py: the predicates over the Meet page.
use oreeai_notetaker.Prelude.{
  ℕ, ◌+◌, Bool, true, false, Option, none, some, String, ◌<>◌, show_nat, ltb, ◌==◌, if◌then◌else◌,
}

-- The participants control: the number that `_PARTICIPANT_COUNT_RE` finds in its label and in its text,
-- the one that `_BARE_COUNT_RE` matches there, and its `_locator_detail`.
pub record CountControl : Type 0 where
  pub label_count : Option ℕ
  pub text_count : Option ℕ
  pub bare_label : Option ℕ
  pub bare_text : Option ℕ
  pub detail : String

-- What the selectors find at a moment; of a control that is there, its `_locator_detail`.
pub record Page : Type 0 where
  pub knocking_indicator : ℕ → Option String
  pub leave_call_button : ℕ → Bool
  pub removed_indicator : ℕ → Option String
  pub call_ended_indicator : ℕ → Option String
  pub join_blocked_indicator : ℕ → Bool
  pub name_input : ℕ → Option String
  pub join_button : ℕ → Option String
  pub participant_count_button : ℕ → Option CountControl
  pub alone_hint : ℕ → Option String

-- `a or b`, of two matches
abbrev either {ℓ} : {A : Type ℓ} → Option A → Option A → Option A
either none b = b
either (some a) b = some a

-- The selectors are asked one after the other, from the moment `at` on.
module _ (page : Page) where
  unfoldable pub is_in_waiting_room : ℕ → Bool × String
  is_in_waiting_room at = elim (page.knocking_indicator at) [
    | some d ↦ (true, "waiting for admission: " <> d)
    | none ↦
        if page.leave_call_button (at + 1)
        then (false, "leave control visible; not in waiting room")
        else elim (page.name_input (at + 2)) [
          | some d ↦ (true, "pre-join green room: " <> d)
          | none ↦ elim (page.join_button (at + 3)) [
            | some d ↦ (true, "pre-join green room: " <> d)
            | none ↦ (false, "no green-room or admission-wait controls visible")
          ]
        ]
  ]

  unfoldable pub is_admitted : ℕ → Bool × String
  is_admitted at = elim (page.knocking_indicator at) [
    | some d ↦ (false, "still knocking (admission pending)")
    | none ↦
        if page.leave_call_button (at + 1)
        then (true, "in call: leave control visible")
        else (false, "leave control absent")
  ]

  unfoldable pub is_removed : ℕ → Bool × String
  is_removed at = elim (page.removed_indicator at) [
    | some d ↦ (true, "removed from call: " <> d)
    | none ↦ (false, "no removal notice visible")
  ]

  unfoldable pub is_call_ended : ℕ → Bool × String
  is_call_ended at = elim (page.call_ended_indicator at) [
    | some d ↦ (true, "call ended: " <> d)
    | none ↦ (false, "no call-ended notice visible")
  ]

  unfoldable pub participant_count : ℕ → Option ℕ × String
  unfolding show_nat
  participant_count at =
      if page.leave_call_button at
      then elim (page.participant_count_button (at + 1)) [
        | none ↦ (none, "participant-count control absent")
        | some c ↦
            elim (either (either c.label_count c.text_count) (either c.bare_label c.bare_text)) [
              | none ↦ (none, "participant count unavailable (" <> c.detail <> ")")
              | some n ↦ (
                some n,
                show_nat n
                    <> " "
                    <> (if n == 1 then "participant" else "participants")
                    <> " in call",
              )
            ]
      ]
      else (none, "not in a call")

  unfoldable pub bot_alone_in_call : ℕ → Bool × String
  unfolding participant_count
  bot_alone_in_call at =
      if page.leave_call_button at
      then (let (count, detail) = participant_count (at + 1) in
          let hint = page.alone_hint (at + 3) in
          let by_hint : Bool × String = elim hint [
            | some d ↦ (true, "only the bot remains (" <> d <> ")")
            | none ↦ (false, "not enough evidence the bot is alone (" <> detail <> ")")
          ] in
          elim count [
            | none ↦ by_hint
            | some n ↦
                if n == 1
                then (
                  true,
                  elim hint [
                    | some d ↦ "only the bot remains (" <> detail <> "; " <> d <> ")"
                    | none ↦ "only the bot remains (" <> detail <> ")"
                  ],
                )
                else if ltb 1 n
                then (false, "other participants remain (" <> detail <> ")")
                else by_hint
          ])
      else (false, "not in a call")
