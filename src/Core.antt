-- ===== src/Core.antt =====
-- core/src: the request queue and the hand-off of a request with its reply.
pub mod Queue
pub mod Handoff
mod Tests
