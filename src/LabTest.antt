-- ===== src/LabTest.antt =====
-- The file servers and the client of the network lab test.
pub mod Answer
pub mod Client
pub mod Select
