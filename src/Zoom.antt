-- ===== src/Zoom.antt =====
-- bot/: the bot in a Zoom call. What Playwright finds on the page, and what the recorder does, are
-- answers at a moment; an exception of Playwright within a predicate is not modelled.
pub mod States
pub mod Loop
pub mod InCall
pub mod Finishes
pub mod Spared
