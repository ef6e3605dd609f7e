-- ===== src/Reactor.antt =====
-- JKYi/reactor: the state machines of the reactor library (its buffer is the module Buffer).
pub mod Connector
pub mod Connection
pub mod LoopPool
