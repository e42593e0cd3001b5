-- ===== src/Contract.antt =====
-- contracts/: the wire format that the control plane and the agents share.
pub mod Value
pub mod Events
pub mod Identity
pub mod Json
