-- ===== src/Retention.antt =====
-- src/oreeai_notetaker/workers/retention.py: the audio that is past its retention window.
pub mod Sweep
pub mod Window
use oreeai_notetaker.Prelude.{
  ℕ, suc, ◌+◌, ◌*◌, Bool, true, false, ◌&&◌, ◌||◌, not, List, [], ◌∷◌, ◌++◌, Option, none, some,
  ltb, if◌then◌else◌, is_some,
}
use oreeai_notetaker.Call.{CallStatus, done, failed, status_eq, Call, Table, get, put}
use oreeai_notetaker.Storage.{ObjectStorageClient, stored, failure, delete_for_call}
use oreeai_notetaker.World.{Env, World, built, misconfigured, note, object_deleted, commit}

-- `timedelta(days=1)`, in microseconds
abbrev pub day : ℕ
day = 86400000000

-- The WHERE of `_expired_rows`; `updated_at < now - timedelta(days)` with both sides moved.
unfoldable pub is_expired : CallStatus → ℕ → ℕ → Call → Bool
is_expired status retention_days now c =
    status_eq c.status status
    && is_some c.audio_url
    && ltb (c.updated_at + retention_days * day) now

-- `_expired_rows`: the ids; `locked` are the rows that SKIP LOCKED leaves out.
unfoldable pub expired_rows : (ℕ → Bool) → CallStatus → ℕ → ℕ → Table → List ℕ
expired_rows locked status retention_days now [] = []
expired_rows locked status retention_days now (c ∷ t) =
    let rest = expired_rows locked status retention_days now t in
    if is_expired status retention_days now c && not (locked c.id) then c.id ∷ rest else rest

-- `update(Call).where(Call.id == i).values(audio_url=None)`, with the column's `onupdate`.
unfoldable pub clear_audio : ℕ → ℕ → Table → Table
clear_audio now i t = elim (get i t) [
  | none ↦ t
  | some c ↦ put (record c { audio_url = none; updated_at = now }) t
]

-- One round of the loop over `expired`: whether the row was reclaimed.
unfoldable pub reclaim : Env → ObjectStorageClient → ℕ → World → Bool × World
unfolding clear_audio
reclaim env client i w =
    if env.locked w.tick i || not (is_some (get i w.table))
    then (false, w)
    else elim (delete_for_call client env.settings.s3_presign_ttl_seconds w.tick i) [
      | failure e ↦ (false, commit w.table w)
      | stored _ ↦ (
        true,
        note (object_deleted i) (record w { table = clear_audio (env.func_now w.tick) i w.table }),
      )
    ]

abbrev pub count_reclaimed : Bool → ℕ → ℕ
count_reclaimed true n = suc n
count_reclaimed false n = n

unfoldable pub reclaim_all : Env → ObjectStorageClient → List ℕ → ℕ → World → ℕ × World
unfolding reclaim
reclaim_all env client [] reclaimed w = (reclaimed, w)
reclaim_all env client (i ∷ is) reclaimed w =
    let (hit, w') = reclaim env client i w in
    reclaim_all env client is (count_reclaimed hit reclaimed) w'

-- The ids in `expired`: the done calls, and then the failed ones.
unfoldable pub all_expired : Env → World → List ℕ
unfolding expired_rows
all_expired env w =
    let now = env.wall_clock w.tick in
    expired_rows (env.locked w.tick) done env.settings.audio_retention_days now w.table
    ++ expired_rows (env.locked w.tick) failed env.settings.failed_audio_retention_days now w.table

unfoldable pub enforce_retention : Env → World → ℕ × World
unfolding reclaim_all all_expired
enforce_retention env w = elim env.storage [
  | misconfigured m ↦ (0, w)
  | built client ↦ reclaim_all env client (all_expired env w) 0 (commit w.table w)
]
