-- ===== src/Approval.antt =====
-- domain/approval: the bridge between the host's approval waterfall and a person.
pub mod Broker
