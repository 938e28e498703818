-- ===== src/Tests/Accepted.antt =====
-- A connection that a first packet makes, and that is accepted: src/etcpSockApi.c.
use etcp.Base.{ℕ, ◌+◌, ◌≡◌, refl, arith, true, false, Option, some, none, pos, negsuc}
use etcp.CircularQueue.{Cq, new, round_up, sizeof_slot}
use etcp.CircularQueue.Window.{IsValid}
use etcp.CircularQueue.Invariant.{new-IsValid}
use etcp.HashTable.{get, get_idx, get_chain}
use etcp.Packet.{enoerr, rdy}
use etcp.State.{Store, Socket, LaMap, etcpsock_la}
use etcp.Socket.{fresh_socket, dst_key}
use etcp.Socket.Fresh.{narrowed, fresh_conn}
use etcp.Socket.Placed.{Reaches}
use etcp.NewConn.{add_new_conn}
use etcp.Api.Recv.{etcp_accept}
use etcp.Accept.{accept_sock}
use etcp.Accept.First.{add_new_conn-accept}
use etcp.Tests.Transport.{packet, whole_packets}
use etcp.Tests.Sockets.{hash_zero, granted, flow, empty_table, table_of, no_mappings}
use etcp.Tests.Arrivals.{frames, still}
use etcp.Tests.Programs.{whole_pointers}

-- A queue for two sockets, and a socket that listens on it.
abbrev two_sockets : Cq (Option ℕ)
two_sockets = record {
  slot_data_size = 8;
  rd_min = 0;
  rd_max = 0;
  rd_rng = pos 0;
  readable = pos 0;
  wr_min = 0;
  wr_max = 2;
  wr_rng = pos 0;
  available = pos 2;
  outstanding = pos 0;
  rd_seq = 0;
  wr_seq = 0;
  slot_count_log2 = 1;
  slot_count = 2;
  seq_mask = 1;
  slot_size = round_up (8 + sizeof_slot);
  slots = λ i. record { len = 8; buff = none; valid = false };
}

new-two_sockets : new {A = Option ℕ} (pos 8) (pos 1) true true none ≡ some two_sockets
unfolding new
new-two_sockets = refl

two_sockets-IsValid : IsValid two_sockets
two_sockets-IsValid = (new-IsValid 8 1 none new-two_sockets).0

abbrev listen_map : LaMap
listen_map = record {
  listen_window_size_log2 = 2;
  listen_buff_size = 1024;
  vlan = negsuc 0;
  priority = pos 0;
  listen_q = some two_sockets;
  table = empty_table;
}

abbrev listening_store : Store
listening_store = record no_mappings {
  state = record (no_mappings.state) {
    event_triggered_rx = false;
    dst_map = table_of (dst_key flow) 5;
  };
  maps = λ m. some listen_map;
}

abbrev listener : Socket
listener = record fresh_socket { type = etcpsock_la; recv_conn = some 5 }

destination : (get hash_zero listening_store.state.dst_map (dst_key flow)).1 ≡ some 5
unfolding get get_idx get_chain
destination = refl

add_new_conn-accept_example :
    (queued after : Store) × (add_new_conn hash_zero granted
        (packet rdy 0)
        listening_store
        5
        flow
        false
      ≡ some (enoerr, queued, some 4, none))
    × (etcp_accept ⦃b = whole_packets⦄
          (λ hdr. packet rdy 0)
          hash_zero
          granted
          (packet rdy 0)
          still
          frames
          ⦃s = whole_pointers⦄
          3
          queued
          listener
          none
          1
        ≡ some (enoerr, some 3, after, 1))
    × (after.socks 3 ≡ some (accept_sock 4))
    × Reaches hash_zero after flow 4
    × (after.conns 4 ≡ some (fresh_conn (packet rdy 0) 2 1024 (narrowed flow) (negsuc 0) (pos 0)))
add_new_conn-accept_example =
    add_new_conn-accept hash_zero granted (λ n. refl) (packet rdy 0) listening_store 5 listen_map
      two_sockets flow ⦃s = whole_pointers⦄ ⦃b = whole_packets⦄ (λ hdr. packet rdy 0) still frames 3
      listener none 1 (λ old new. refl) refl refl refl refl refl (omega arith) two_sockets-IsValid
      refl refl (omega arith) destination refl
