-- ===== src/Bot.antt =====
-- bot/: the bot in a Meet call. What Playwright finds on the page, and what the recorder does, are
-- answers at a moment; an exception of Playwright within a predicate is not modelled.
pub mod States
pub mod Loop
pub mod Emit
pub mod Recording
pub mod Environ
pub mod Join
pub mod Entry
pub mod Careful
pub mod Browser
pub mod Exits
pub mod Legal
pub mod Sound
pub mod Rounds
pub mod Quiet
pub mod Timely
pub mod Deadline
pub mod Alone
pub mod Deserted
