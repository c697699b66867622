-- ===== src/Rabbit.antt =====
-- packages/rabbitmq/src/amqp: the routing keys.
pub mod Routing
mod Tests
