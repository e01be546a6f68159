-- ===== src/Protocol.antt =====
-- internal/protocol: the values of the wire protocol and the lifecycle state machine.
pub mod Lifecycle
pub mod OperationId
pub mod Event
pub mod Emitter
