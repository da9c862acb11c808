-- ===== src/Delivery.antt =====
-- internal/delivery: claims, outbound delivery, retries and the worker.
pub mod Types
pub mod Retry
pub mod Scheduler
pub mod Results
pub mod Requests
pub mod Outbound
pub mod Options
pub mod Replays
