-- ===== src/Lib.antt =====
-- Verification library of the network assignments.
--
-- The programs. Assignment 4 changes the CSMA device of the ns-3 simulator: `csma-net-device.cc`
-- sends frames over a shared channel and `backoff.cc` draws the delays between its attempts. The
-- device asks Backoff for a delay whenever it finds the channel busy, and resets it when a frame
-- has begun or is given up. Assignment 6 is a peer-to-peer file search over UDP: `__init.cpp`
-- collects the peers' registrations, places peers and files on a ring of hashes and sends every
-- peer its neighbours and its part of the file map; `server.cpp` is a peer, which answers a search
-- from its map or passes it on to its successor. Assignment 5 and the lab test are clients and
-- servers that transfer files over TCP, and a peer of assignment 6 has a download and a server of
-- that kind too. Assignment 4 has an experiment too, `udp-echo.cc`, which runs echo servers and
-- clients over such devices.
--
-- Backoff models assignment 4/assign_4_12CS10046_12CS30022/backoff.cc: the class as a record, each
-- method as a function of it. Backoff.Window and Backoff.Retries have the theorems on the delay
-- and on the counter. Time and the random variable of ns-3 are the parameter RandomSource; the
-- documented law of the variable is the hypothesis IsUniform, which only the bounds use.
--
-- Csma models assignment 4/assign_4_12CS10046_12CS30022/1-persistent/csma-net-device.cc.
-- Csma.Platform has what is ns-3's as a parameter: packets, addresses, the queue, the channel, the
-- error model. Csma.Device is the record of the members, with the trace calls as a log and the
-- scheduled event as a field. Csma.Frame is AddHeader, Csma.Transmit is TransmitStart,
-- TransmitAbort, TransmitCompleteEvent and TransmitReadyEvent, Csma.Send is Send and SendFrom,
-- Csma.Receive is Receive. Csma.Run is the step relation: one step is a call of a public method,
-- the firing of the scheduled event, or a change of the channel by another device. Csma.Getters is
-- what a device says of itself, and DoDispose. Csma.Drain measures how many events a device can
-- still fire before everything that it accepted has left: for each frame the retries that are
-- allowed, the transmission and the gap. An operation that meets a failed NS_ASSERT, a null
-- pointer or an undefined conversion gives `none`.
--
-- Peer models assignment 6/assignment 6 12CS10046/__init.cpp and server.cpp. Peer.Text is
-- std::string, as a list of bytes, and std::getline on a string stream; Peer.Decimal is the
-- decimal conversions; Peer.Map is std::map; Peer.Node is oat_hash, with its 64-bit wrap-around,
-- and the class Node. Peer.Registration, Peer.Ring, Peer.Lookup, Peer.Publish, Peer.Reply and
-- Peer.Search follow the program: a peer registers, the nodes are sorted and linked to a ring,
-- map_file_to_node finds the node of a file, every file is published there, the bootstrap program
-- answers, a search is routed. Peer.Bootstrap composes the sorting, linking and publishing.
-- Peer.Transport is what becomes of a message between __sendreq and __recvinfo, with their
-- buffers. Peer.Program is main of both programs: what is sent is a value, and the messages that
-- come in are arguments. Peer.Network is the peers together: a step is one datagram that reaches a
-- peer and makes it send the next; it connects the reactions of the peers to the ring that the
-- bootstrap program makes. Peer.Program.Whole goes from the registrations to the answer of a
-- search, Peer.Program.Download from there to the file, and Peer.Program.Tcp is the set-up of a
-- peer's TCP server. Peer.Sockets is __sendreq, __recvinfo and the round of a peer's UDP server
-- over the calls on sockets, which are the parameter Sockets; what the manual pages say of UDP is
-- the hypothesis IsUdp. Peer.Sockets.Carries and Peer.Sockets.Round relate these calls to
-- Peer.Transport and Peer.Network, and Peer.Sockets.Deaf what becomes of a datagram that comes in
-- between two calls.
--
-- Transfer is the sending and receiving of files over TCP. Transfer.System has the calls of the
-- operating system as a parameter, what the manual pages say of them as the hypothesis IsStream,
-- and the outcomes of a program. Transfer.Copy is the loop of read and write that five of the
-- programs have, and Transfer.Copy.Short follows it with writes that take fewer bytes than they
-- are given; Transfer.Serve is the server's child of assignment 5/assignment 5
-- 12CS10046/Peer_Server.cpp and of assignment 6's server.cpp; Transfer.Fetch is file_transfer of
-- Peer_Client.cpp and download_func of server.cpp, with Transfer.Fetch.Long for long names;
-- Transfer.Whole puts both ends together. Transfer.Listen is the parent of the servers that fork:
-- the set-up of the socket and the loop that accepts; Processes has bind, listen and fork as a
-- parameter. FileIndex is list_of_files of assignment 5's FIS_Server.cpp.
--
-- LabTest models network lab test/12CS10046_2: LabTest.Answer is the answer that server1.cpp and
-- server2.cpp give, LabTest.Client is get_file of cli/client.cpp, and LabTest.Select is the loop
-- of server2.cpp over select, with its descriptor sets; LabTest.Select.Main sets up the listener
-- in front of it, LabTest.Select.Handled has what serving a descriptor can do to the variables,
-- and LabTest.Select.Order compares a round with a plain pass over the descriptors that are ready;
-- LabTest.Select.LeakFree follows the open descriptors of the process, for which
-- LabTest.Select.Table has the laws of the calls.
--
-- UdpEcho models assignment 4/assign_4_12CS10046_12CS30022/udp-echo.cc, and the same file of
-- assignment 3: main builds an experiment of eight nodes with echo servers and clients, as a
-- record. The addresses that ns-3 assigns are a parameter.
--
-- Examples has the tests and the concrete instances of the parameters.
--
-- Bounds and fuel. The recursion of TransmitStart through TransmitAbort has the length of the
-- queue and one as fuel: every abort takes a packet from the queue. The loop that reads the file
-- map has the length of the text and two: every round that goes on takes a byte. Printing n has n
-- + 1 rounds: each divides by 10.
--
-- The loop of read and write and the client's loop with the progress take their fuel from the
-- caller: as many rounds as there are bytes to read, and one more, are enough. The loop over the
-- descriptors has 1024 rounds, the size of a descriptor set.
--
-- Not modelled: the interleaving of a parent with its children; datagrams that the network loses
-- or brings in another order; what ns-3 does when a simulation runs; the copies in front of
-- oat_hash, in buffers that a text of a message cannot overflow; the output on the terminal except
-- the client's progress; the setters of the device that only store a pointer which no modelled
-- operation reads.
pub mod Base
pub mod Backoff
pub mod Csma
pub mod Peer
pub mod Transfer
pub mod FileIndex
pub mod LabTest
pub mod UdpEcho
pub mod Examples
