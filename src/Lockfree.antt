-- ===== src/Lockfree.antt =====
-- lockfree/: the hazard-pointer sanitizer, and the list stack and queue that reclaim their nodes through
-- it.
pub mod Sanitizer
pub mod Stack
pub mod Calls
pub mod Queue
