-- ===== src/Bot/Environ.antt =====
-- bot/join_meet.py and bot/consent.py: what the bot reads from its environment. A float is a number of
-- millionths.
use oreeai_notetaker.Prelude.{
  ℕ, ℤ, pos, negsuc, Bool, false, [], ◌∷◌, Option, none, some, String, ◌<>◌, ltb, ◌==◌, ◌||◌,
  if◌then◌else◌, str_eq, strip,
}
use oreeai_notetaker.Runner.ExitTable.{text_in}
use oreeai_notetaker.Bot.Loop.{Timeouts}

-- What `float(raw)` comes to.
pub data Float : Type 0 where
  value_error not_finite : Float
  finite : ℤ → Float

-- Python, and the variables of the process.
pub record Environ : Type 0 where
  pub variable : String → Option String
  pub float : String → Float
  pub lower : String → String
  pub upper : String → String
  -- The number that `logging` has for a name
  pub level : String → Option ℕ

module _ (os : Environ) where
  -- `os.environ.get(name, "").strip()`
  abbrev pub stripped : String → String
  stripped name = elim (os.variable name) [ none ↦ "" | some raw ↦ strip raw ]

  -- `… or default`
  abbrev pub or_default : String → String → String
  or_default default s = if str_eq s "" then default else s

  abbrev pub above : ℕ → Option ℕ → Bool
  above value none = false
  above value (some maximum) = ltb maximum value

  unfoldable pub env_float : String → ℕ → Option ℕ → ℕ
  env_float name default maximum =
      if str_eq (stripped name) "" then default else elim (os.float (stripped name)) [
        | value_error ↦ default
        | not_finite ↦ default
        | finite (negsuc n) ↦ default
        | finite (pos value) ↦ if value == 0 || above value maximum then default else value
      ]

  unfoldable pub timeouts_from_env : Timeouts
  unfolding env_float
  timeouts_from_env = record {
    waiting_room_s = env_float "BOT_WAITING_ROOM_TIMEOUT" 600000000 none;
    empty_room_s = env_float "BOT_EMPTY_ROOM_TIMEOUT" 300000000 none;
    alone_grace_s = env_float "BOT_ALONE_GRACE" 60000000 none;
    max_record_s = env_float "BOT_MAX_RECORD_DURATION" 10800000000 none;
  }

  unfoldable pub silence_floor_from_env : ℕ
  unfolding env_float
  silence_floor_from_env = env_float "BOT_SILENCE_RMS_FLOOR" 50000000 (some 32767000000)

  -- `parse_auth_mode(…)`: whether the mode is `authenticated`.
  unfoldable pub is_authenticated : Bool
  is_authenticated = str_eq (os.lower (stripped "BOT_AUTH_MODE")) "authenticated"

  unfoldable pub consent_granted : Bool
  consent_granted = text_in (os.lower (stripped "CONSENT_ACK")) ("1" ∷ "true" ∷ "yes" ∷ [])

  -- `consent.environment()`
  unfoldable pub environment : String
  environment = elim (os.variable "ENVIRONMENT") [
    | none ↦ or_default "local" (os.lower "local")
    | some raw ↦ or_default "local" (os.lower (strip raw))
  ]

  -- The local variables of `main`
  abbrev pub meeting_url : String
  meeting_url = stripped "MEETING_URL"

  unfoldable pub call_id : String
  call_id = or_default "spike" (stripped "CALL_ID")

  unfoldable pub profile_dir : String
  profile_dir = or_default "/profile" (stripped "BOT_PROFILE_DIR")

-- The level that `_configure_logging` sets.
unfoldable pub log_level : Environ → ℕ
log_level os =
    let raw : String = elim (os.variable "LOG_LEVEL") [ none ↦ "INFO" | some given ↦ given ] in
    elim (os.level (os.upper raw)) [ none ↦ 20 | some n ↦ n ]

abbrev pub bot_name_fixed : String
bot_name_fixed = "Oree Notetaker"

-- What is wrong with the signed-in account's name.
abbrev pub identity_detail : Option String → String
identity_detail none =
    "could not determine the signed-in account display name; the consent identity must be the dedicated '"
    <> bot_name_fixed <> "' account"
identity_detail (some name) =
    "signed in as '" <> name <> "'; the consent identity must be the dedicated '" <> bot_name_fixed
    <> "' account (run make bot-login with the dedicated account)"

abbrev pub is_bot_name : Option String → Bool
is_bot_name none = false
is_bot_name (some name) = str_eq name bot_name_fixed

unfoldable pub verify_consent_identity : Option String → String → Option String
verify_consent_identity display_name env =
    if is_bot_name display_name
    then none
    else if str_eq env "production"
    then some (identity_detail display_name)
    else none
