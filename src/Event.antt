-- ===== src/Event.antt =====
-- internal/event: the ingestion of events.
pub mod Json
pub mod Store
pub mod Publish
pub mod Handler
mod Examples
