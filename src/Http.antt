-- ===== src/Http.antt =====
-- src/httpclient/mod.rs: the OpAMP client that polls its server by HTTP requests.
pub mod Wire
pub mod Steps
pub mod Ready
pub mod Safety
pub mod Delivery
pub mod Polling
pub mod Answers
pub mod Backoff
pub mod Gzip
pub mod Counts
pub mod Numbering
pub mod Inbox
pub mod Outage
pub mod Exchange
pub mod Sending
pub mod Answering
pub mod Heartbeat
pub mod Startup
pub mod Reporting
pub mod Piling
pub mod Starving
