-- ===== src/Queue.antt =====
-- pkg/queue: the queues in memory, the pollers, and the queueing services that they poll.
pub mod Spec
pub mod Uri
pub mod Sync
pub mod Poller
pub mod Service
pub mod Isolation
pub mod Sqs
pub mod Beanstalk
