-- ===== src/Lib.antt =====
-- A meeting notetaker: an API takes requests for calls, a runner starts one bot container for each,
-- and the bot records the meeting; when it exits, the runner stores the audio, has it transcribed,
-- finishes the call and tells the client by a signed webhook. This library models the calls' life,
-- the runner from its claim of a call to the call's end with the sweeps beside it, the loops of the
-- Meet and the Zoom bot, and what stands behind them.
--
-- Parts, with the code that they follow:
-- - Call (Status, Row, Repository): src/oreeai_notetaker/enums/call.py, models/call.py,
--   repositories/. A row is a record with the model's columns, a table the list of its rows; `get`,
--   `create`, `update` and `count_active` are the repository's methods.
-- - Errors, Schema: core/exceptions.py and schemas/call.py, its validators in Schema/Validate. A raise
--   is a value `err`.
-- - Lifecycle: services/call.py. `move` is `_require_call` and `_transition` as each method composes
--   them. Lifecycle/Move has the edges of the lifecycle, Runs the sequences of transactions, History
--   what holds along a sequence, Rows what holds of every row.
-- - Webhook: workers/webhook_dispatcher.py. `attempts` is the retry loop, on the number of attempts
--   that are left. Webhook/Retry is about the loop, Webhook/Contract about `deliver`.
-- - Storage: integrations/object_storage/base.py and services/storage.py. A client is a record of its
--   operations; Local and S3 are local.py and s3.py, and Adapters is about what they raise.
-- - Transcription: integrations/transcription/ and services/transcription.py. Policy is about the
--   retry policy; Json, Response and Deepgram are the Deepgram adapter, with Segments, WordCount,
--   Words and Status about it.
-- - World: what the runner sees, as one state that each action is given and leaves, and the
--   environment, whose answers depend on a moment that goes on with each effect.
-- - Retention: workers/retention.py. Sweep is about one row of a sweep, Window about a whole sweep.
-- - Runner: workers/bot_runner.py, whose modules are
--   - Poll, `poll_once`, with Queue about the call that it takes and Claim about what it does;
--   - Host, what the machine answers, docker included; Result, the two kinds of lines that a bot
--     prints; Spawn, `build_spawn_args`, `_copy_profile`, `spawn_bot` and `run_call`. ResultLine is
--     about the line that bot/join_meet.py prints (Bot/Emit) and the runner reads, Environment about
--     what a container sees in its environment, Course about a call from its bot's start to its end;
--   - ExitTable, what an exit means, with Meaning about the table of bot/README.md; Exit and Dispatch,
--     the actions of `apply_exit_status`, with Effects, Settles, Conclude, Contract, Typed and Ending
--     about every path to its end, and Late about a call that another task has finished meanwhile;
--   - Sweeps, the startup sweep over the containers and the sweep over the stale calls, with Turns,
--     Swept, Stale and Orphans about them;
--   - Main, the rounds of `main`, and what can happen to the table in any order; Safe and the modules
--     named after it are about what each action does to the statuses, Refinement about all of them
--     against the lifecycle's diagram.
-- - Bot: bot/states.py (States) and bot/listeners.py (Loop, with its state in Loop/State): the
--   predicates over the Meet page, and the polling loop, one function for each branch of its body.
--   Legal, Sound and Rounds are about how it ends and what becomes of the recorder, Quiet and
--   Deadline about when it ends, Timely about the two deadlines of both bots' loops, Alone and
--   Deserted about the end reason `alone`. Environ, Join, Recording, Entry and Emit are
--   bot/join_meet.py with the parts of bot/consent.py and bot/record_audio.py that it calls: the
--   environment, the steps around the call loop, the level of the recording, `main`, and the line
--   that it prints. Careful, Browser and Exits are about them.
-- - Zoom: bot/states_zoom.py (States) and bot/listeners_zoom.py (Loop): the same for Zoom's web client.
--   InCall and Finishes are about how the loop ends, Spared about the text that can end it.
-- - Tests: concrete calls, environments and meetings, with the theorems at work on them.
--
-- How the parts meet: Runner uses Lifecycle for every change of a status, Webhook for each dispatch,
-- Storage and Transcription through the clients that the environment holds, and Retention after a
-- call is done. `IsTyped` of Runner/Contract is what the runner relies on in the adapters. A bot meets
-- the runner in the lines that it prints and in its exit code. Zoom/Loop takes the state, the outcome
-- and the timeouts of Bot/Loop, as the source does.
--
-- Numbers: a UUID is a natural number, a time a number of microseconds, a float (a time in a
-- transcript, a level) a number of millionths. Every loop is structural: the retry loops run on the
-- attempts that are left, which is the bound of their `range`. The `while True` of each bot runs on
-- rounds: one is enough whose clock has passed the waiting-room timeout and, from a round before
-- it, the maximum recording duration. Where each round takes at least a microsecond, the two
-- timeouts in microseconds, and two, are enough rounds.
--
-- Not modelled: the text of logs; the SQL engine (a transaction runs alone, on the table that the
-- one before it committed, so the API's ceiling, which is advisory, is never passed by requests
-- that race for the last place; a row that another transaction holds is a question to the
-- environment); asyncio's scheduling (the two outputs of a bot are one sequence of lines, with what
-- other tasks commit between them, and a sweep, and the way from a bot's exit, run with nothing
-- between their transactions); httpx, boto3, Playwright, docker, Redis, the copying of files, and
-- Python's json, uuid and `\w`, which are parameters, and so is the square root of a mean; the
-- errors of the database; the API's routing and authentication; pydantic's parsing of fields; how
-- the services are built from the settings, and the preparation of the audio directory and of Redis
-- in the runner's `main`; and of the bots Zoom's join page, the launch options of Chrome, the chat
-- announcement, the process of parec, the exceptions of Playwright within a predicate of the loops
-- and of the Meet recorder's stop, and the tools for logging in and probing.
mod Prelude
pub mod Call
pub mod Errors
pub mod Schema
pub mod Lifecycle
pub mod Webhook
pub mod Storage
pub mod Transcription
pub mod World
pub mod Retention
pub mod Runner
pub mod Bot
pub mod Zoom
mod Tests
