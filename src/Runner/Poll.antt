-- ===== src/Runner/Poll.antt =====
-- src/oreeai_notetaker/workers/bot_runner.py: `poll_once`, the claim of the oldest queued call.
use oreeai_notetaker.Prelude.{
  ℕ, Bool, true, false, not, ◌&&◌, ◌||◌, [], ◌∷◌, Option, none, some, String, ◌<>◌, ltb, leb, ◌==◌,
  if◌then◌else◌,
}
use oreeai_notetaker.Call.{queued, status_eq, Call, Table, count_active}
use oreeai_notetaker.Errors.{ok, err}
use oreeai_notetaker.Lifecycle.{mark_failed, mark_bot_started}
use oreeai_notetaker.World.{Env, Action, returned, threw, commit, note, bot_task_started}
use oreeai_notetaker.Runner.Dispatch.{dispatch_webhook}

-- `DISK_MIN_FREE_BYTES`, and `_audio_disk_ok`
abbrev pub disk_min_free_bytes : ℕ
disk_min_free_bytes = 2147483648

abbrev pub audio_disk_ok : Option ℕ → Bool
audio_disk_ok none = false
audio_disk_ok (some free) = leb disk_min_free_bytes free

abbrev pub container_name : Env → ℕ → String
container_name env i = "oreeai-bot-" <> env.codec.uuid_text i

-- `ORDER BY created_at, id`
abbrev pub is_before : Call → Call → Bool
is_before c d = ltb c.created_at d.created_at || (c.created_at == d.created_at && leb c.id d.id)

abbrev pub is_waiting : (ℕ → Bool) → Call → Bool
is_waiting locked c = status_eq c.status queued && not (locked c.id)

abbrev pub first_of : Call → Option Call → Option Call
first_of c none = some c
first_of c (some d) = if is_before c d then some c else some d

-- The SELECT, with LIMIT 1; `locked` are the rows that SKIP LOCKED leaves out.
unfoldable pub next_queued : (ℕ → Bool) → Table → Option Call
next_queued locked [] = none
next_queued locked (c ∷ t) =
    let rest = next_queued locked t in if is_waiting locked c then first_of c rest else rest

-- A refusal: the failure is committed, and then dispatched.
unfoldable pub refuse : Env → ℕ → String → Action Bool
refuse env i reason w = elim (mark_failed (env.func_now w.tick) i reason w.table) [
  | ok (_, t) ↦ (returned true, dispatch_webhook env i (commit t w))
  | err e ↦ (threw e, commit w.table w)
]

-- The claim, and the task of `run_call`.
unfoldable pub claim : Env → ℕ → Action Bool
claim env i w = elim (mark_bot_started (env.func_now w.tick) i (container_name env i) w.table) [
  | ok (_, t) ↦ (returned true, note (bot_task_started i) (commit t w))
  | err e ↦ (threw e, commit w.table w)
]

unfoldable pub poll_once : Env → Action Bool
unfolding next_queued refuse claim
poll_once env w = elim (next_queued (env.locked w.tick) w.table) [
  | none ↦ (returned false, commit w.table w)
  | some c ↦
      if ltb env.settings.call_concurrency_limit (count_active w.table)
      then refuse env c.id "concurrency_limit" w
      else if not (audio_disk_ok (env.disk_free w.tick))
      then refuse env c.id "disk_full" w
      else claim env c.id w
]
