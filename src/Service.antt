-- ===== src/Service.antt =====
-- internal/service: what happens to a message between its reception and the outbound queue.
pub mod Sanitize
pub mod Fields
pub mod Rewrite
pub mod Forward
pub mod Attachments
pub mod Replay
pub mod Inbox
mod Examples
