-- ===== src/Receivers.antt =====
-- What devices send unprompted (engine/src/services/receivers/core.ts and
-- engine/src/services/receivers/flows.ts): the limit on the events of a source in Rate, the framing
-- of syslog over TCP in Framing, the sums of flow records in Flows, and NetFlow v5 packets in
-- Netflow.
pub mod Rate
pub mod Utf8
pub mod Framing
pub mod Chunks
pub mod Rounds
pub mod Streams
pub mod Octets
pub mod Delivery
pub mod Flows
pub mod Sums
pub mod Top
pub mod Netflow
