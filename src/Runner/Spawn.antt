-- ===== src/Runner/Spawn.antt =====
-- src/oreeai_notetaker/workers/bot_runner.py: the arguments of `docker run`, the copy of the profile,
-- the bot's output, and `run_call`. What other tasks commit while the bot runs stands between the lines
-- of its output.
use oreeai_notetaker.Prelude.{
  ℕ, ℤ, negsuc, Bool, false, not, ◌&&◌, ◌||◌, List, [], ◌∷◌, ◌++◌, Option, none, some, String, ◌<>◌,
  str_eq, is_some, if◌then◌else◌, rstrip,
}
use oreeai_notetaker.Call.{joining, status_eq, Call, get}
use oreeai_notetaker.Lifecycle.{mark_recording}
use oreeai_notetaker.Lifecycle.Runs.{Request, step}
use oreeai_notetaker.Transcription.Json.{Fields}
use oreeai_notetaker.World.{
  Env, World, Action, returned, crashed, nothing_more, note, commit, transact, bot_spawned,
  profile_discarded, ◌>>=◌,
}
use oreeai_notetaker.Runner.Exit.{apply_exit_status}
use oreeai_notetaker.Runner.Poll.{container_name}
use oreeai_notetaker.Runner.Host.{Host}
use oreeai_notetaker.Runner.Result.{parse_result_line, is_recording_signal}

-- `_ENV_PASSTHROUGH`
abbrev pub env_passthrough : List String
env_passthrough =
    "BOT_AUTH_MODE" ∷ "BOT_PROFILE_DIR" ∷ "ENVIRONMENT" ∷ "LOG_LEVEL" ∷ "TZ" ∷ "PAREC_DEVICE"
    ∷ "BOT_WAITING_ROOM_TIMEOUT" ∷ "BOT_EMPTY_ROOM_TIMEOUT" ∷ "BOT_ALONE_GRACE"
    ∷ "BOT_MAX_RECORD_DURATION" ∷ "BOT_SILENCE_RMS_FLOOR" ∷ []

-- A dict from texts to texts, in the order of insertion; `values[key] = value`.
abbrev pub Values : Type 0
Values = List (String × String)

abbrev pub set_item : String → String → Values → Values
set_item key value [] = (key, value) ∷ []
set_item key value ((k, v) ∷ vs) =
    let rest = set_item key value vs in if str_eq k key then (k, value) ∷ vs else (k, v) ∷ rest

-- A text or `None` that is truthy.
abbrev pub truthy : Option String → Option String
truthy none = none
truthy (some s) = if str_eq s "" then none else some s

abbrev pub set_if : String → Option String → Values → Values
set_if key none vs = vs
set_if key (some value) vs = set_item key value vs

abbrev pub pass_through : (String → Option String) → List String → Values → Values
pass_through environ [] vs = vs
pass_through environ (key ∷ keys) vs =
    pass_through environ keys (set_if key (truthy (environ key)) vs)

-- `env_values`
unfoldable pub env_values : Env → Host → Call → Option String → Values
env_values env host call profile =
    let given =
      ("MEETING_URL", call.meeting_url)
      ∷ ("CALL_ID", env.codec.uuid_text call.id)
      ∷ ("CONSENT_ACK", "true")
      ∷ [] in
    let passed = pass_through host.environ env_passthrough given in
    if is_some (truthy profile) then set_item "BOT_PROFILE_DIR" "/profile" passed else passed

abbrev pub env_flags : Values → List String
env_flags [] = []
env_flags ((key, value) ∷ vs) = "-e" ∷ (key <> "=" <> value) ∷ env_flags vs

abbrev pub profile_mount : Option String → List String
profile_mount none = []
profile_mount (some path) = "-v" ∷ (path <> ":/profile") ∷ []

abbrev pub image_or : Option String → String → String
image_or none default = default
image_or (some image) default = image

unfoldable pub build_spawn_args :
    Env → Host → Call → Option String → Option String → List String → List String
unfolding env_values
build_spawn_args env host call profile image command =
    "docker"
      ∷ "run"
      ∷ "--rm"
      ∷ "--init"
      ∷ "--shm-size=1g"
      ∷ ("--name=" <> container_name env call.id)
      ∷ "--memory=2g"
      ∷ "--cpus=1.5"
      ∷ "--pids-limit=512"
      ∷ "--log-driver"
      ∷ "json-file"
      ∷ "--log-opt"
      ∷ "max-size=10m"
      ∷ "--log-opt"
      ∷ "max-file=3"
      ∷ "--network"
      ∷ env.settings.bot_docker_network
      ∷ env_flags (env_values env host call profile)
    ++ "-v" ∷ (env.settings.audio_host_path <> ":/audio") ∷ profile_mount (truthy profile)
    ++ image_or (truthy image) ("oreeai-bot:" <> env.settings.bot_image_tag) ∷ command

-- `_copy_profile`: the copy's path.
unfoldable pub copy_profile : Env → Host → ℕ → World → Option String
copy_profile env host i w =
    let target = env.settings.audio_host_path <> "/.profile-" <> env.codec.uuid_text i in
    if str_eq host.bot_profile "" || not (host.path_exists w.tick host.bot_profile)
    then none
    else if host.copytree_fails w.tick target
    then none
    else some target

-- `_discard_profile`
abbrev pub discard_profile : Option String → World → World
discard_profile none w = w
discard_profile (some profile_dir) w = note (profile_discarded profile_dir) w

-- `_mark_recording`
unfoldable pub mark_call_recording : Env → ℕ → Action (Unit {0})
unfolding transact
mark_call_recording env i = transact env (λ now. mark_recording now i) >>= λ committed. nothing_more

-- What happens while the bot runs: it writes a line, or more than `readline` takes; another task
-- commits a transaction, at its `func.now()`.
pub data Told : Type 0 where
  line : String → Told
  overrun : Told
  elsewhere : ℕ → Request → Told

-- `_stream_output` from here on, with `result` and `recording_fired`.
unfoldable pub stream_from :
    Env → Host → ℕ → List Told → Option Fields → Bool → Action (Option Fields)
unfolding parse_result_line is_recording_signal mark_call_recording step rstrip
stream_from env host i [] result fired w = (returned result, w)
stream_from env host i (line raw ∷ told) result fired w =
    let text = rstrip raw in
    let parsed = parse_result_line host.reader text in
    let fires = not fired && is_recording_signal host.reader text in
    ((if fires then mark_call_recording env i else nothing_more) >>= λ _.
    stream_from env host i told (if is_some parsed then parsed else result) (fires || fired))
      w
stream_from env host i (overrun ∷ told) result fired w = (crashed, w)
stream_from env host i (elsewhere now request ∷ told) result fired w =
    stream_from env host i told result fired
      (commit (step env.settings.call_concurrency_limit w.table (now, request)) w)

-- What comes of the bot's process: an OSError at its start, or what it told and its exit code.
pub data BotRun : Type 0 where
  spawn_failed : BotRun
  ran : List Told → ℤ → BotRun

-- `spawn_bot`
unfoldable pub spawn_bot : Env → Host → ℕ → List String → BotRun → Action (Option ℤ × Option Fields)
unfolding stream_from
spawn_bot env host i args spawn_failed w = (returned (some (negsuc 0), none), w)
spawn_bot env host i args (ran told code) w =
    (stream_from env host i told none false >>= λ result. λ w'. (returned (some code, result), w'))
      (note (bot_spawned args) w)

-- What `run_call` does with a profile; the copy is discarded in any case.
unfoldable pub run_bot : Env → Host → ℕ → Option String → Call → BotRun → Action (Unit {0})
unfolding spawn_bot build_spawn_args apply_exit_status
run_bot env host i profile call bot w =
    let (r, w') = spawn_bot env host i (build_spawn_args env host call profile none []) bot w in
    let w'' = discard_profile profile w' in
    ((λ _. (r, w'')) >>= λ (exit_code, result). apply_exit_status env i exit_code result) w''

unfoldable pub run_call : Env → Host → ℕ → BotRun → Action (Unit {0})
unfolding copy_profile run_bot
run_call env host i bot w =
    let profile = copy_profile env host i w in
    elim (get i w.table) [
      | none ↦ (returned tt, discard_profile profile w)
      | some call ↦
          if status_eq call.status joining
          then run_bot env host i profile call bot w
          else (returned tt, discard_profile profile w)
    ]
