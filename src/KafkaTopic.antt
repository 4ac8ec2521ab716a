-- ===== src/KafkaTopic.antt =====
-- internal/plugin/kafkatopicrepository: the repository of Kafka topics, its state and operations, and
-- the worker that reads topics in batches.
pub mod Repository
pub mod Keys
pub mod Cache
pub mod Acquire
pub mod Trace
pub mod Forget
pub mod Fetch
pub mod Delivery
pub mod Groups
pub mod Withdraw
pub mod Answers
mod Tests
