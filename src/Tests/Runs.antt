-- ===== src/Tests/Runs.antt =====
-- The runner's sweeps, a bot's run and the lines that it writes
-- (src/oreeai_notetaker/workers/bot_runner.py, bot/join_meet.py).
use Prim.Native.Char.{code}
use oreeai_notetaker.Prelude.{
  ℕ, ◌≡◌, refl, true, false, [], ◌∷◌, Option, none, some, String, ◌<>◌, pos, str_eq, leb,
  if◌then◌else◌, ◌&&◌, rstrip, has_newline, show_nat, after_prefix,
}
use oreeai_notetaker.Call.{CallStatus, joining, is_active, Call, get, Fate, fate_of}
use oreeai_notetaker.Lifecycle.History.{StatusPath}
use oreeai_notetaker.Lifecycle.Runs.{call_failed}
use oreeai_notetaker.Transcription.Json.{obj}
use oreeai_notetaker.Bot.Loop.{BotOutcome}
use oreeai_notetaker.Bot.Emit.{emit_result, dumps_body, result_payload}
use oreeai_notetaker.World.{World, returned}
use oreeai_notetaker.Runner.ExitTable.{result_end_reason}
use oreeai_notetaker.Runner.Effects.{fate}
use oreeai_notetaker.Runner.Settles.{failed_with}
use oreeai_notetaker.Runner.Host.{Host, exited}
use oreeai_notetaker.Runner.Result.{Reader, parse_result_line, is_recording_signal}
use oreeai_notetaker.Runner.ResultLine.{logged, result_end_reason-emit, begins_in}
use oreeai_notetaker.Runner.Sweeps.{is_stale, stale_sweep, orphan_sweep}
use oreeai_notetaker.Runner.Stale.{stale_sweep_lem}
use oreeai_notetaker.Runner.Orphans.{is_listed, orphan_sweep_lem}
use oreeai_notetaker.Runner.Spawn.{BotRun, ran, line, elsewhere, run_call, env_values}
use oreeai_notetaker.Runner.Course.{Finished, run_call_terminal}
use oreeai_notetaker.Runner.Environment.{lookup, lookup-env_values}
use oreeai_notetaker.Runner.Main.{starts, round_at, call_task, request, first_timers, perform_all}
use oreeai_notetaker.Runner.Refinement.{perform_all-StatusPath}
use oreeai_notetaker.Tests.Data.{a_call, env, env-IsTyped, world, one_segment}

-- `json.dumps` of a text without special characters.
abbrev quoted : String → String
quoted s = "\"" <> s <> "\""

abbrev removed_text : String
removed_text = "{\"call_id\": \"6\", \"end_reason\": \"removed\", \"exit_code\": 3}"

abbrev reader : Reader
reader = record {
  loads = λ s.
      if str_eq s removed_text then some (obj (result_payload "6" (some "removed") 3)) else none;
  is_word = λ c. leb 97 (code c) && leb (code c) 122;
}

abbrev listing : String
listing = "oreeai-bot-7\noreeai-bot-none\n"

abbrev host : Host
host = record {
  docker = λ at args. exited (some (pos 0)) listing "";
  environ = λ key. if str_eq key "TZ" then some "UTC" else none;
  bot_profile = "/profiles/bot";
  path_exists = λ at path. true;
  copytree_fails = λ at path. false;
  uuid_of = λ s. if str_eq s "7" then some 7 else none;
  reader = reader;
}

abbrev joining_call : Call
joining_call = a_call 6 joining

abbrev joined : World
joined = record world { table = joining_call ∷ world.table; scratch = 6 ∷ [] }

abbrev front : String
front = "2026-01-01 12:00:00,000 INFO oreeai.bot.result "

-- The bot records, another call is failed meanwhile, and it is removed.
abbrev bot : BotRun
bot =
    ran
      (line "INFO oreeai.bot.states recording started\n"
        ∷ elsewhere 50 (call_failed 7 "stale_call")
        ∷ line (front <> "OREEAI_BOT_RESULT " <> removed_text <> "\n")
        ∷ [])
      (pos 3)

stale_sweep_lem_example :
    ((stale_sweep env host world).0 ≡ returned tt)
    × ((j : ℕ) (c : Call)
        → get j world.table ≡ some c
        → fate j (stale_sweep env host world).1.table
          ≡ some (
              if is_stale env.settings (env.wall_clock world.tick) c
              then failed_with "stale_call" (fate_of c)
              else fate_of c))
stale_sweep_lem_example =
    stale_sweep_lem env host world (λ at args. refl) (refl, (refl, (refl, tt)))

orphan_sweep_lem_example :
    ((orphan_sweep env host world).0 ≡ returned tt)
    × ((j : ℕ) (c : Call)
        → get j world.table ≡ some c
        → fate j (orphan_sweep env host world).1.table
          ≡ some (
              if is_listed host listing j && is_active c.status
              then failed_with "worker_restart" (fate_of c)
              else fate_of c))
orphan_sweep_lem_example = orphan_sweep_lem env host world listing "" (λ at args. refl) refl

run_call_terminal_example : Finished env host 6 (run_call env host 6 bot joined)
run_call_terminal_example =
    run_call_terminal env host 6 bot joined joining_call env-IsTyped refl refl refl

lookup-env_values_example :
    lookup "CONSENT_ACK" (env_values env host joining_call (some "/srv/audio/.profile-6"))
    ≡ some "true"
lookup-env_values_example =
    lookup-env_values env host joining_call (some "/srv/audio/.profile-6") "CONSENT_ACK"

perform_all-StatusPath_example :
    (f : Fate) × (fate 6
        (perform_all env host
          (starts
            ∷ round_at 0 first_timers
            ∷ call_task 6 bot
            ∷ request 70 (call_failed 6 "late")
            ∷ [])
          joined).table
      ≡ some f)
    × StatusPath joining f.status
unfolding fate
perform_all-StatusPath_example =
    perform_all-StatusPath env host
      (starts ∷ round_at 0 first_timers ∷ call_task 6 bot ∷ request 70 (call_failed 6 "late") ∷ [])
      joined 6 (fate_of joining_call) refl

abbrev removal : BotOutcome
removal = record {
  exit_code = 3;
  end_reason = some "removed";
  reason = "You've been removed";
  recording_started = true;
}

result_end_reason-emit_example :
    result_end_reason
      (parse_result_line reader (rstrip (logged reader quoted "6" (some removal) 3 front)))
    ≡ some "removed"
unfolding emit_result begins_in has_newline dumps_body show_nat after_prefix
result_end_reason-emit_example =
    result_end_reason-emit reader quoted "6" removal 3 front refl (refl, refl, refl) refl

signal_seen : is_recording_signal reader "INFO oreeai.bot.states recording started" ≡ true
unfolding is_recording_signal
signal_seen = refl

signal_not_seen : is_recording_signal reader "prerecording started" ≡ false
unfolding is_recording_signal
signal_not_seen = refl

bot_removed : Option Fate
bot_removed = fate 6 (run_call env host 6 bot joined).1.table

bot_removed_lem :
    (bot_removed
      ≡ some (record (fate_of joining_call) {
        status = CallStatus.done;
        end_reason = some "removed";
        audio_url = some "s3://b/calls/6/audio.wav";
        transcript = some (one_segment ∷ []);
      }))
unfolding bot_removed run_call fate oreeai_notetaker.Lifecycle.move
    oreeai_notetaker.Runner.Dispatch.dispatch_webhook oreeai_notetaker.Webhook.deliver
    oreeai_notetaker.Retention.is_expired
bot_removed_lem = refl
