-- ===== src/State.antt =====
-- src/etcpState.h and src/etcpState.c: the tables through which packets and sockets find their
-- connections, and the memory that these stand in.
-- A pointer is a number, and a store says what is behind it: nothing where it was never handed out
-- or was freed, so that an operation that reads through such a pointer, or through NULL, has no
-- result. The calls of `calloc` are numbered; `granted` tells which of them succeed, and the number
-- of a call is the pointer that it returns. A function that may leave early skips the numbers it
-- does not need. The callbacks of the state and the pointers handed to them are parameters of what
-- calls them. A freed map is one whose parts are freed, as `srcsMapDelete` keeps the structure
-- itself.
use etcp.Base.{
  ℕ, ◌+◌, ◌-◌, ◌%◌, ◌^◌, Bool, Option, none, some, ℤ, pos, negsuc, List, [], ◌∷◌, ltb,
  if◌then◌else◌, update, ◌>>=◌,
}
use etcp.CircularQueue.{Cq}
use etcp.HashTable.{Ht, HtKey, Entry, delete}
use etcp.HashTable
use etcp.Packet.{PBuff}
use etcp.Conn.{Conn, FlowId, conn_new}

-- `DST_TAB_MAX_LOG2` and `SRC_TAB_MAX_LOG2`.
abbrev pub dst_tab_max_log2 : ℕ
dst_tab_max_log2 = 17

abbrev pub src_tab_max_log2 : ℕ
src_tab_max_log2 = 10

-- `etcpLAMap_t`. The queue holds pointers to sockets, NULL in a slot that was never written.
pub record LaMap : Type 0 where
  pub listen_window_size_log2 : ℕ
  pub listen_buff_size : ℕ
  pub vlan : ℤ
  pub priority : ℤ
  pub listen_q : Option (Cq (Option ℕ))
  pub table : Ht ℕ

-- `etcpState_t`, less its callbacks.
pub record EtcpState : Type 0 where
  pub event_triggered_rx : Bool
  pub event_triggered_tx : Bool
  pub dst_map : Ht ℕ

-- `socketType_t`.
pub data SocketType : Type 0 where
  etcpsock_uk etcpsock_la etcpsock_sr : SocketType

-- `etcpSocket_t`, less the pointer to the one global state. The union's two members share their
-- bytes: `la` is the pointer that `sr.recvConn` is.
pub record Socket : Type 0 where
  pub type : SocketType
  pub recv_conn : Option ℕ
  pub send_conn : Option ℕ

-- `sock->la`.
abbrev pub la_of : Socket → Option ℕ
la_of sock = sock.recv_conn

-- The global state, what is behind the pointers, and the number of calls of `calloc` so far.
pub record Store : Type 0 where
  pub state : EtcpState
  pub maps : ℕ → Option LaMap
  pub conns : ℕ → Option Conn
  pub socks : ℕ → Option Socket
  pub callocs : ℕ

-- The conversion of a 32-bit word to a signed integer.
abbrev pub int_32 : ℕ → ℤ
int_32 n = let low = n % 2 ^ 32 in if ltb low (2 ^ 31) then pos low else negsuc (2 ^ 32 - 1 - low)

-- `etcpConnDelete`, which takes NULL.
unfoldable pub conn_delete : Store → Option ℕ → Option Store
conn_delete st none = some st
conn_delete st (some c) = elim (st.conns c) [
  | none ↦ none
  | some _ ↦ some (record st { conns = update st.conns c none })
]

-- The calls of `connHTDelete` on the entries of a table.
unfoldable pub conns_delete : Store → List (Entry ℕ) → Option Store
conns_delete st [] = some st
conns_delete st (entry ∷ rest) =
    conn_delete st (some entry.value) >>= (λ after. conns_delete after rest)

-- `srcsMapDelete`, which takes NULL.
unfoldable pub srcs_map_delete : Store → Option ℕ → Option Store
srcs_map_delete st none = some st
srcs_map_delete st (some m) = do
  map ← st.maps m
  after ← conns_delete st (delete map.table)
  some (record after { maps = update after.maps m none })

module _ (granted : ℕ → Bool) where
  -- `srcsMapNew`.
  unfoldable pub srcs_map_new : Store → ℕ → ℕ → ℤ → ℤ → Option ℕ × Store
  srcs_map_new st window_log2 buff_size vlan priority =
      let n = st.callocs in
      let later = record st { callocs = n + 3 } in
      if granted n
      then (elim (HashTable.new {V = ℕ} src_tab_max_log2 (granted (n + 1)) (granted (n + 2))) [
        | none ↦ (none, later)
        | some table ↦
            let map : LaMap = record {
              listen_window_size_log2 = window_log2;
              listen_buff_size = buff_size;
              vlan = vlan;
              priority = priority;
              listen_q = none;
              table = table;
            } in
            (some n, record later { maps = update later.maps n (some map) })
      ])
      else (none, later)

  -- `etcpConnNew`, with its conversions to narrower integers. An empty packet buffer is `zeroed`.
  unfoldable pub conn_alloc : PBuff → Store → ℕ → ℕ → FlowId → ℤ → ℤ → Option ℕ × Store
  conn_alloc zeroed st window_log2 buff_size flow vlan priority =
      let n = st.callocs in
      let later = record st { callocs = n + 6 } in
      let narrow : FlowId = record {
        dst_port = flow.dst_port % 2 ^ 32;
        src_port = flow.src_port % 2 ^ 32;
        dst_addr = flow.dst_addr;
        src_addr = flow.src_addr % 2 ^ 32;
      } in
      elim (conn_new (granted n) (granted (n + 1), granted (n + 2))
        (granted (n + 3), granted (n + 4)) (granted (n + 5)) zeroed (pos window_log2)
        (int_32 buff_size) narrow vlan priority) [
          | none ↦ (none, later)
          | some conn ↦ (some n, record later { conns = update later.conns n (some conn) })
        ]

  -- `etcpStateNew`: the store of a program that has just made its state.
  unfoldable pub etcp_state_new : Bool → Bool → Option Store
  etcp_state_new event_triggered_rx event_triggered_tx =
      if granted 0
      then (elim (HashTable.new {V = ℕ} dst_tab_max_log2 (granted 1) (granted 2)) [
        | none ↦ none
        | some dst_map ↦ some (record {
          state = record {
            event_triggered_rx = event_triggered_rx;
            event_triggered_tx = event_triggered_tx;
            dst_map = dst_map;
          };
          maps = λ m. none;
          conns = λ c. none;
          socks = λ s. none;
          callocs = 3;
        })
      ])
      else none

-- The loop of `htDelete` over the destinations, and `deleteEtcpState`: what is left of the store.
unfoldable pub maps_delete : Store → List (Entry ℕ) → Option Store
maps_delete st [] = some st
maps_delete st (entry ∷ rest) =
    srcs_map_delete st (some entry.value) >>= (λ after. maps_delete after rest)

unfoldable pub delete_etcp_state : Store → Option Store
delete_etcp_state st = maps_delete st (delete st.state.dst_map)
