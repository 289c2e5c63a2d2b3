-- ===== src/Call.antt =====
-- The call, its row in the database, and the table of calls (src/oreeai_notetaker/enums/call.py,
-- models/call.py, repositories/base.py, repositories/call.py, db/base.py).
mod Status
mod Row
mod Repository
unfoldable pub use Status.*
unfoldable pub use Row.*
unfoldable pub use Repository.*
