-- ===== src/Lib.antt =====
-- ETCP, a transport over Ethernet in user space, and its containers.
--
-- The program keeps every packet of a connection in a circular queue of slots. A sender's bytes
-- become packets of the send queue (`doEtcpUserTx`), a user's transmission control marks those that
-- may go, and `doEtcpNetTx` hands them to the card. A received packet goes to the slot of its
-- sequence number (`etcpOnRxDat`), or, where it was delivered before, to an ordered list of stale
-- packets; the acknowledgements are made from both, and `doEtcpUserRx` gives a packet to the user
-- once it is acknowledged. An acknowledgement releases the slot of the send queue
-- (`etcpProcessAck`). Two levels of hash tables find a connection by its destination and its
-- source.
--
-- Files, and the code that they model, by paths from the repository's root:
--   Base            tests, integers, masks, memory and results
--   CircularQueue   src/CircularQueue.c and src/CircularQueue.h: `Cq` is `cq_t`, a function to an
--                   operation, without the prefix `cq`. Slots holds the operations on one slot, Window
--                   the shape of the window, Advance and Moved the two loops, Invariant what every
--                   operation keeps, Outcomes the answers, Fifo the bounded list, Copy the data, Next
--                   the slot at the write number, and Limits where the counters and lengths go wrong
--   HashTable       src/HashTable.c: `Ht` is `ht_t`; Lookup and Change are `htGet`, and `htAddNew` and
--                   `htRem`
--   LinkedList      src/LinkedList.c: `Ll` is `ll_t`; Order and Count
--   Packet          src/packets.h and the codes of src/types.h
--   Conn            src/etcpConn.c
--   NetTx           `doEtcpNetTx` of src/etcp.c
--   UserTx          `doEtcpUserTx` and `etcpMkEthPkt`
--   UserRx          `doEtcpUserRx`
--   Ack             `etcpProcessAck`
--   Receive         `etcpOnRxDat` from the sequence numbers on
--   Sack            `generateAcks` and `pushSackEthPacket`: Offset, Ranges and Walk for the numbers of a
--                   packet, Pushed for where it is stored; Stale is `generateStaleAcks`
--   State           src/etcpState.c, and what is behind the pointers: `Store`
--   Socket          src/etcpSockApi.c: a socket's construction and release, the mappings, and
--                   `etcpConnect`, `etcpBind` and `etcpListen`; Fresh, Placed, Mapping and Types
--   NewConn         `addNewConn`
--   RxAck           `etcpOnRxAck`: Range and Released for the loop over a range, First
--   NetRx           `doEtcpNetRx`, `etcpOnRxEthernetFrame`, `etcpOnRxPacket` and `etcpOnRxDat`;
--                   Null is the header that is read through NULL
--   Api             `etcpSend`, `etcpAccept`, `etcpRecv` and `etcpClose`
--   Accept          a connection from `addNewConn` to `etcpAccept` (First)
--   Control         src/test.c: `etcpRxTc` and `etcpTxTc`, the client and the server (Programs); Sent
--                   and Call follow a message through `etcpSend` to the card
--   SelfTest        src/CircularQueueTest.c (Queue), src/LinkedListTest.c (Chain) and
--                   src/HashTableTest.c (Table), run on the models
--   Tests           small inputs, and the theorems at them
--
-- State is passed explicitly; an operation returns its code and the state after it. Maps,
-- connections and accepted sockets are shared by pointers, so they stand in a store, under the
-- number of the call of `calloc` that made them; an operation that reads through NULL or a freed
-- pointer has no result, and neither has one whose packet ends beyond its slot or array. Sequence
-- numbers are natural numbers without an upper bound: 64 bits last for ever at any rate of
-- packets. Counters that the code lets go below zero are integers. The widths that the code relies
-- on are written out (the hash's 64 bits, the 16 bits of the attempts, the 32 of a length, the 64
-- of the sum that limits the send loop). Memory that may be refused is an argument that says
-- whether it was.
--
-- Fuel: the two loops of the circular queue run on the distance to the window's end, which is where
-- the code stops; the loop of `doEtcpNetTx` needs two turns more than there are numbers from the
-- read to the write number, that of `doEtcpUserRx` one more than there are packets, that of
-- `doEtcpUserTx` one more than there are bytes, that of `llDelete` one more than there are slots,
-- and the loop of `etcpOnRxAck` over a range one more than it has numbers. The loop of
-- `doEtcpNetRx` goes on as long as the card has frames.
--
-- Parameters: the 64-bit SpookyHash of a key, the clock, the card's callbacks and those for
-- transmission control, what a copy of bytes does to a packet buffer or to a pointer, the bytes of
-- an acknowledgement read as a packet buffer, and which calls of `calloc` succeed.
--
-- Not modelled: the bytes of the Ethernet header, the pointers to headers inside a buffer (those of
-- a packet buffer that `etcpOnRxDat` copies point into a frame that has returned; here the headers
-- are copied with it), what `cqPush` of more bytes than a slot has writes into the next slot (the
-- operations that push ask first whether it does), negative lengths, the texts of errors, `cqDelete`,
-- which only frees, the guards on NULL parameters of the containers, debug output, and of the test
-- programs their `main` and the card's driver. src/spooky_hash.c is a copy of another project's
-- library.
pub mod Base
pub mod CircularQueue
pub mod HashTable
pub mod LinkedList
pub mod Packet
pub mod Conn
pub mod NetTx
pub mod UserTx
pub mod UserRx
pub mod Accept
pub mod Ack
pub mod Receive
pub mod Sack
pub mod Tests
pub mod State
pub mod Socket
pub mod NewConn
pub mod RxAck
pub mod NetRx
pub mod Api
pub mod Control
pub mod SelfTest
