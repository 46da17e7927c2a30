-- ===== src/Streaming.antt =====
-- Kafka streaming (src/streaming/): the message loop of the consumer with retries and the
-- dead-letter queue, the in-memory broker, and the idempotent handler.
pub mod Handler
pub mod Consumer
pub mod Broker
pub mod Tests
