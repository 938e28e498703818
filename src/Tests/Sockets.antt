-- ===== src/Tests/Sockets.antt =====
-- Sockets and their mappings: src/etcpSockApi.c.
use etcp.Base.{ℕ, ◌≡◌, refl, Bool, true, none, some, arith, pos, negsuc, [], ◌∷◌}
use etcp.HashTable.{HtKey, Ht, get, get_idx, get_chain}
use etcp.Packet.{EtcpError, enoerr, enotconn, rdy}
use etcp.Conn.{FlowId}
use etcp.State.{Socket, Store, LaMap, etcpsock_sr}
use etcp.Socket.{
  rem_conn, fresh_socket, dst_key, src_key, with_conn, add_conn_mapping, rem_conn_mapping,
  etcp_bind,
}
use etcp.Socket.Fresh.{narrowed, fresh_conn}
use etcp.Socket.Placed.{Reaches}
use etcp.Socket.Mapping.{add_conn_mapping-Reaches}
use etcp.Socket.Types.{Follows, none_left, then_call, bind, Calls-Follows}
use etcp.Tests.Transport.{packet}

-- The number 0 for every key.
abbrev pub hash_zero : HtKey → ℕ
hash_zero k = 0

abbrev pub granted : ℕ → Bool
granted n = true

abbrev pub empty_table : Ht ℕ
empty_table = record {
  entry_size = 0;
  table_entries_log2 = 10;
  table_entries = 1024;
  count = 0;
  table = λ i. [];
}

abbrev pub table_of : HtKey → ℕ → Ht ℕ
table_of key value = record empty_table { table = λ i. record { key = key; value = value } ∷ [] }

abbrev pub flow : FlowId
flow = record { dst_port = 2; src_port = 1; dst_addr = 20; src_addr = 10 }

abbrev pub no_mappings : Store
no_mappings = record {
  state = record { event_triggered_rx = true; event_triggered_tx = true; dst_map = empty_table };
  maps = λ m. none;
  conns = λ c. none;
  socks = λ s. none;
  callocs = 3;
}

-- One mapping, from the flow to connection 6 by way of map 5.
abbrev pub one_map : LaMap
one_map = record {
  listen_window_size_log2 = 0;
  listen_buff_size = 0;
  vlan = negsuc 0;
  priority = pos 0;
  listen_q = none;
  table = table_of (src_key flow) 6;
}

abbrev pub one_mapping : Store
one_mapping = record no_mappings {
  state = record (no_mappings.state) { dst_map = table_of (dst_key flow) 5 };
  maps = λ m. some one_map;
}

abbrev connected : Socket
connected = record fresh_socket { type = etcpsock_sr }

pub one_mapping-Reaches : Reaches hash_zero one_mapping flow 6
unfolding get get_chain get_idx
one_mapping-Reaches = record {
  at = 5;
  map = one_map;
  destination = refl;
  held = refl;
  source = refl;
}

-- The connection is mapped, and stays so.
mapped-kept : rem_conn_mapping hash_zero one_mapping connected flow ≡ some (enotconn, one_mapping)
unfolding rem_conn_mapping rem_conn get get_chain get_idx
mapped-kept = refl

add_conn_mapping-Reaches_example :
    (after : Store) × (add_conn_mapping hash_zero granted
        (packet rdy 0)
        no_mappings
        connected
        2
        1024
        flow
        true
        (negsuc 0)
        (pos 0)
      ≡ some (enoerr, after, with_conn connected true 7))
    × Reaches hash_zero after flow 7
    × (after.conns 7 ≡ some (fresh_conn (packet rdy 0) 2 1024 (narrowed flow) (negsuc 0) (pos 0)))
add_conn_mapping-Reaches_example =
    add_conn_mapping-Reaches hash_zero granted (λ n. refl) (packet rdy 0) no_mappings connected 2
      1024 flow true (negsuc 0) (pos 0) refl (omega arith) refl

-- A program that binds a new socket.
abbrev bound : EtcpError × Store × Socket
bound = etcp_bind hash_zero granted no_mappings fresh_socket 2 1024 flow (negsuc 0) (pos 0)

Calls-Follows_example : Follows fresh_socket bound.2
Calls-Follows_example =
    Calls-Follows hash_zero granted (packet rdy 0) {r = (no_mappings, fresh_socket)}
      {s = (bound.1, bound.2)} (refl, refl)
      (then_call none_left (bind 2 1024 flow (negsuc 0) (pos 0) refl))
