-- ===== src/Tests/Sent.antt =====
-- A message from `etcpSend` to the card: src/etcpSockApi.c and src/etcp.c.
use etcp.Base.{◌+◌, false, some, Bytes}
use etcp.CircularQueue.{Cq}
use etcp.Packet.{PBuff, rdy}
use etcp.Conn.{Conn}
use etcp.State.{Store, Socket, etcpsock_sr}
use etcp.Socket.{fresh_socket}
use etcp.Tests.Sockets.{no_mappings}
use etcp.Tests.Transport.{packet, no_packets, conn}

-- A packet that nobody has acknowledged, and a connection whose queues were made of such.
abbrev unsent : PBuff
unsent = record (packet rdy 0) {
  etcp_dat_hdr = record ((packet rdy 0).etcp_dat_hdr) { ack_sent = false };
}

abbrev unused : Cq PBuff
unused = record no_packets { slots = λ i. record { len = 1024; buff = unsent; valid = false } }

abbrev ready : Conn
ready = record conn { rx_q = unused; tx_q = unused }

abbrev message : Bytes
message i = i + 1

-- A socket that sends on that connection, and a store with it.
abbrev sender_store : Store
sender_store = record no_mappings { conns = λ c. some ready }

abbrev sender_sock : Socket
sender_sock = record fresh_socket { type = etcpsock_sr; send_conn = some 4 }
