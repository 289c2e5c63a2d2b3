-- ===== src/Runner/Late.antt =====
-- A call that another task has finished while its audio was being stored or transcribed
-- (src/oreeai_notetaker/workers/bot_runner.py, the ConflictErrors after a bot's exit).
use oreeai_notetaker.Prelude.{◌≡◌}
use oreeai_notetaker.Call.{Call}
use oreeai_notetaker.World.{World, Outcome, returned}

-- The task returned, and the table and the scratch WAVs are as they were.
abbrev pub Leaves : World → Outcome (Unit {0}) × World → Type 0
Leaves w (r, w') = (r ≡ returned tt) × (w'.table ≡ w.table) × (w'.scratch ≡ w.scratch)
