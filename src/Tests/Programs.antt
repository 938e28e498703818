-- ===== src/Tests/Programs.antt =====
-- A small program, with the transmission control of src/test.c.
use etcp.Base.{ℕ, ◌≡◌, refl, true, Option, some, pos, negsuc, Buffer, []}
use etcp.CircularQueue
use etcp.HashTable
use etcp.HashTable.{Ht, get_chain, get_idx, add_new, add_chain}
use etcp.LinkedList
use etcp.Packet.{rdy, enoerr}
use etcp.Conn.{conn_new}
use etcp.State.{Store, Socket, srcs_map_new, conn_alloc, etcp_state_new}
use etcp.Socket.{
  fresh_socket, source_map, place_conn, place_made, connect_in, add_conn_mapping, etcp_connect,
}
use etcp.Control.{etcp_rx_tc, etcp_tx_tc}
use etcp.Control.Programs.{World}
use etcp.Tests.Transport.{packet, card, whole_packets}
use etcp.Tests.Sockets.{flow, hash_zero, granted, no_mappings}
use etcp.Tests.Arrivals.{frame, still}

abbrev pub whole_pointers : Buffer (Option ℕ)
whole_pointers = record { copy = λ dst src n. src; copy-copy = λ a b c n. refl }

abbrev big_table : Ht ℕ
big_table = record {
  entry_size = 0;
  table_entries_log2 = 17;
  table_entries = 131072;
  count = 0;
  table = λ i. [];
}

abbrev pub world : World ℕ
world = record {
  copies = whole_packets;
  pointers = whole_pointers;
  as_buffer = λ hdr. packet rdy 0;
  hash64 = hash_zero;
  granted = granted;
  zeroed = packet rdy 0;
  clock = still;
  eth_hw_rx = λ w. (pos 0, frame, 0, w);
  eth_hw_tx = card;
  rx_tc = etcp_rx_tc;
  tx_tc = etcp_tx_tc still;
}

abbrev pub first_store : Store
first_store = record no_mappings { state = record (no_mappings.state) { dst_map = big_table } }

first_made : etcp_state_new granted true true ≡ some first_store
unfolding etcp_state_new HashTable.new
first_made = refl

connect_made :
    (st : Store) × (sock : Socket) × (etcp_connect hash_zero granted
        (packet rdy 0)
        first_store
        fresh_socket
        2
        2048
        flow
        true
        (negsuc 0)
        (pos 0)
      ≡ some (enoerr, st, sock))
unfolding etcp_connect add_conn_mapping connect_in source_map HashTable.get get_chain get_idx
    srcs_map_new HashTable.new add_new add_chain place_made place_conn conn_alloc conn_new
    CircularQueue.new LinkedList.new HashTable.get_loop HashTable.add_loop
connect_made = (_, _, refl)
