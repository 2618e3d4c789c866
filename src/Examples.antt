-- ===== src/Examples.antt =====
-- Tests, and the theorems at concrete inputs that meet their hypotheses.
mod Toy
mod Machine
pub mod Backoff
pub mod Csma
pub mod Peer
pub mod Sockets
pub mod Network
pub mod Download
pub mod Transfer
pub mod Listen
pub mod LabTest
pub mod UdpEcho
