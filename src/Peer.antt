-- ===== src/Peer.antt =====
-- The peer-to-peer file search of assignment 6/assignment 6 12CS10046: `__init.cpp` collects the
-- peers and builds the ring, `server.cpp` is a peer.
pub mod Text
pub mod Transport
pub mod Decimal
pub mod Map
pub mod Node
pub mod Registration
pub mod Lookup
pub mod Ring
pub mod Publish
pub mod Bootstrap
pub mod Reply
pub mod Search
pub mod Sockets
pub mod Network
pub mod Program
