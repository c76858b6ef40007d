-- ===== src/Queue/Wakeups.antt =====
-- The two condition variables of pipeline/blocking_queue.hpp: who sleeps, who has been woken, and
-- which notifications are still to come, because the code unlocks before it notifies.
mod Defs
mod Invariant
unfoldable pub use Defs.*
pub use Invariant.*
