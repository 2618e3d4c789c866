-- ===== src/Transfer.antt =====
-- Files over TCP: the calls of the system, the loop that copies a file, and the programs of
-- assignment 5 and of the download in assignment 6 around it.
pub mod System
pub mod Copy
pub mod Serve
pub mod Listen
pub mod Fetch
pub mod Whole
