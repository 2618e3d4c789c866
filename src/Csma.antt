-- ===== src/Csma.antt =====
-- `CsmaNetDevice` of assignment 4/assign_4_12CS10046_12CS30022/1-persistent/csma-net-device.cc:
-- an Ethernet-like network device that senses the wire and backs off while it is busy.
pub mod Platform
pub mod Device
pub mod Getters
pub mod Invariant
pub mod Frame
pub mod Transmit
pub mod Send
pub mod Receive
pub mod Run
pub mod Drain
