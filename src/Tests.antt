-- ===== src/Tests.antt =====
-- Concrete calls, tables and worlds, and the theorems at work on them.
mod Data
mod Calls
mod Delivery
mod Providers
mod Exits
mod Meetings
mod Objects
mod Runs
mod ZoomMeetings
mod Entry
