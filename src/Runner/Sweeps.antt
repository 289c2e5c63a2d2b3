-- ===== src/Runner/Sweeps.antt =====
-- src/oreeai_notetaker/workers/bot_runner.py: the startup sweep over the containers and the sweep over
-- the stale calls. Between two transactions of a sweep nothing else runs here.
use oreeai_notetaker.Prelude.{
  ℕ, ℤ, pos, ◌+◌, ◌*◌, Bool, true, false, ◌&&◌, ◌||◌, List, [], ◌∷◌, none, some, String, ltb, ◌==◌,
  if◌then◌else◌, strip, splitlines, after_prefix,
}
use oreeai_notetaker.Call.{
  joining, recording, processing, status_eq, status_in, is_terminal, Call, Table, get,
}
use oreeai_notetaker.Lifecycle.{mark_failed}
use oreeai_notetaker.World.{
  Env, Settings, Action, returned, nothing_more, commit, transact, ◌>>=◌, ◌>>◌,
}
use oreeai_notetaker.Runner.Exit.{dispatch, if_committed}
use oreeai_notetaker.Runner.Poll.{container_name}
use oreeai_notetaker.Runner.Host.{Host, run_docker, docker_do}

-- `STALE_CALL_GRACE_S` and `PROCESSING_STALE_CUTOFF_S`; a second in microseconds
abbrev pub stale_call_grace_s : ℕ
stale_call_grace_s = 300

abbrev pub processing_stale_cutoff_s : ℕ
processing_stale_cutoff_s = 2400

abbrev pub second : ℕ
second = 1000000

-- The WHERE of `_stale_sweep_inner`; `updated_at < now - timedelta(…)` with both sides moved.
unfoldable pub is_stale : Settings → ℕ → Call → Bool
is_stale settings now c =
    (status_in c.status (joining ∷ recording ∷ [])
      && ltb (c.updated_at + (settings.bot_max_record_duration + stale_call_grace_s) * second) now)
    || (status_eq c.status processing
        && ltb (c.updated_at + processing_stale_cutoff_s * second) now)

unfoldable pub stale_ids : Settings → ℕ → Table → List ℕ
stale_ids settings now [] = []
stale_ids settings now (c ∷ t) =
    let rest = stale_ids settings now t in if is_stale settings now c then c.id ∷ rest else rest

-- `docker kill`, and then `docker rm -f`
unfoldable pub reap : Host → String → Action (Unit {0})
unfolding run_docker
reap host name = docker_do host ("kill" ∷ name ∷ []) >> docker_do host ("rm" ∷ "-f" ∷ name ∷ [])

-- One round of the loop over `stale_ids`.
unfoldable pub fail_stale : Env → Host → ℕ → Action (Unit {0})
unfolding reap transact
fail_stale env host i =
    reap host (container_name env i)
    >> if_committed (transact env (λ now. mark_failed now i "stale_call")) (dispatch env i)

-- `for x in xs: await …`
unfoldable pub for_each : {A : Type 0} → (A → Action (Unit {0})) → List A → Action (Unit {0})
for_each f [] = nothing_more
for_each f (x ∷ xs) = f x >> for_each f xs

unfoldable pub stale_sweep_inner : Env → Host → Action (Unit {0})
unfolding stale_ids for_each fail_stale
stale_sweep_inner env host w =
    for_each (fail_stale env host) (stale_ids env.settings (env.wall_clock w.tick) w.table)
      (commit w.table w)

-- Every exception is caught.
unfoldable pub stale_sweep : Env → Host → Action (Unit {0})
unfolding stale_sweep_inner
stale_sweep env host w = (returned tt, (stale_sweep_inner env host w).1)

-- `name.startswith(CONTAINER_PREFIX)`, and the rest of the name
abbrev pub container_prefix : String
container_prefix = "oreeai-bot-"

-- The transaction of `orphan_sweep`: whether the call was failed.
unfoldable pub fail_orphan : Env → ℕ → Action Bool
unfolding transact
fail_orphan env i w = elim (get i w.table) [
  | none ↦ (returned false, commit w.table w)
  | some call ↦
      if is_terminal call.status
      then (returned false, commit w.table w)
      else transact env (λ now. mark_failed now i "worker_restart") w
]

-- A container of the call `i`.
unfoldable pub sweep_call : Env → Host → String → ℕ → Action (Unit {0})
unfolding fail_orphan reap
sweep_call env host name i = fail_orphan env i >>= λ restart_failed.
    reap host name >> elim restart_failed [ true ↦ dispatch env i | false ↦ nothing_more ]

-- One round of the loop over the names, which are stripped.
unfoldable pub sweep_container : Env → Host → String → Action (Unit {0})
unfolding sweep_call run_docker strip after_prefix
sweep_container env host line =
    let name = strip line in
    elim (after_prefix container_prefix name) [
      | none ↦ nothing_more
      | some raw ↦ elim (host.uuid_of raw) [
        | none ↦ docker_do host ("rm" ∷ "-f" ∷ name ∷ [])
        | some i ↦ sweep_call env host name i
      ]
    ]

abbrev pub is_zero : ℤ → Bool
is_zero (pos n) = n == 0
is_zero _ = false

abbrev pub ps_args : List String
ps_args = "ps" ∷ "-a" ∷ "--filter" ∷ "name=oreeai-bot-" ∷ "--format" ∷ "{{.Names}}" ∷ []

unfoldable pub orphan_sweep : Env → Host → Action (Unit {0})
unfolding run_docker for_each sweep_container splitlines
orphan_sweep env host = run_docker host ps_args >>= λ listed.
    if is_zero listed.returncode
    then for_each (sweep_container env host) (splitlines listed.stdout)
    else nothing_more
