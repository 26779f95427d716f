-- ===== src/Messaging.antt =====
-- internal/platform/awssqs: the publisher of the outbox and the consumer of the wager queue, over SQS.
pub mod Publisher
pub mod Consumer
