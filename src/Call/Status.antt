-- ===== src/Call/Status.antt =====
-- src/oreeai_notetaker/enums/call.py: the statuses of a call, and the platforms.
use oreeai_notetaker.Prelude.{
  ◌≡◌, ◌↔◌, Bool, true, false, List, [], ◌∷◌, String, arith, if◌then◌else◌,
}

pub data CallPlatform : Type 0 where
  google_meet : CallPlatform

pub data CallStatus : Type 0 where
  queued joining recording processing done failed : CallStatus

-- The value of the StrEnum member.
abbrev pub value : CallStatus → String
value queued = "queued"
value joining = "joining"
value recording = "recording"
value processing = "processing"
value done = "done"
value failed = "failed"

abbrev pub status_eq : CallStatus → CallStatus → Bool
status_eq queued queued = true
status_eq joining joining = true
status_eq recording recording = true
status_eq processing processing = true
status_eq done done = true
status_eq failed failed = true
status_eq _ _ = false

pub status_eq_iff : (a b : CallStatus) → (status_eq a b ≡ true) ↔ (a ≡ b)
status_eq_iff a b = ground arith

-- `status in (…)`
abbrev pub status_in : CallStatus → List CallStatus → Bool
status_in s [] = false
status_in s (x ∷ xs) = if status_eq s x then true else status_in s xs

abbrev pub active_statuses : List CallStatus
active_statuses = queued ∷ joining ∷ recording ∷ processing ∷ []

abbrev pub terminal_statuses : List CallStatus
terminal_statuses = done ∷ failed ∷ []

abbrev pub is_active : CallStatus → Bool
is_active s = status_in s active_statuses

abbrev pub is_terminal : CallStatus → Bool
is_terminal s = status_in s terminal_statuses
