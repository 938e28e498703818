-- ===== src/Socket.antt =====
-- src/etcpSockApi.c: the sockets of a program, and the mappings of connections that they stand on.
-- A call takes the caller's socket and hands it back with its code; a socket that `addNewConn`
-- makes is in the store. A call has no result where the code reads through NULL or a freed pointer.
-- `htGet` answers htENOTFOUND just where it leaves the pointer, so a test of its code is one of the
-- pointer. The hash of a key and the success of `calloc` are parameters, as below; `zeroed` is a
-- packet buffer of zero bytes.
pub mod Fresh
pub mod Placed
pub mod Mapping
pub mod Types
use etcp.Base.{
  ℕ, ◌+◌, ◌%◌, ◌^◌, Bool, true, false, Option, none, some, ℤ, pos, leb_ℤ, ◌&&◌, if◌then◌else◌,
  Result, ok, err, update, ◌>>=◌,
}
use etcp.CircularQueue.{Cq, CqError}
use etcp.CircularQueue
use etcp.HashTable.{HtKey, HtError, add_new, rem}
use etcp.HashTable
use etcp.Packet.{EtcpError, enoerr, enomem, ealready, enotconn, ehterr, ewrongsock, PBuff}
use etcp.Conn.{FlowId}
use etcp.State.{
  SocketType, etcpsock_uk, etcpsock_la, etcpsock_sr, Socket, la_of, LaMap, Store, conn_delete,
  srcs_map_delete, srcs_map_new, conn_alloc,
}

-- The tests on a socket's type and on a code of the hash table.
abbrev pub is_uk : SocketType → Bool
is_uk etcpsock_uk = true
is_uk _ = false

abbrev pub is_la : SocketType → Bool
is_la etcpsock_la = true
is_la _ = false

abbrev pub is_sr : SocketType → Bool
is_sr etcpsock_sr = true
is_sr _ = false

abbrev pub is_enoeror : HtError → Bool
is_enoeror HtError.enoeror = true
is_enoeror _ = false

abbrev pub is_ealready : HtError → Bool
is_ealready HtError.ealready = true
is_ealready _ = false

-- The keys of a flow's destination and of its source, and the flow of the way back.
abbrev pub dst_key : FlowId → HtKey
dst_key flow = record { key_lo = flow.dst_port; key_hi = flow.dst_addr }

abbrev pub src_key : FlowId → HtKey
src_key flow = record { key_lo = flow.src_port; key_hi = flow.src_addr }

abbrev pub flipped : FlowId → FlowId
flipped flow = record {
  dst_port = flow.src_port;
  src_port = flow.dst_port;
  dst_addr = flow.src_addr;
  src_addr = flow.dst_addr;
}

-- The conversion of a flow's ports to 32 bits.
abbrev pub with_narrow_ports : FlowId → FlowId
with_narrow_ports flow = record flow {
  dst_port = flow.dst_port % 2 ^ 32;
  src_port = flow.src_port % 2 ^ 32;
}

-- `sizeof(etcpConn_t*)`.
abbrev pub sizeof_pointer : ℕ
sizeof_pointer = 8

-- `etcpSocketNew`: a socket that the caller keeps.
abbrev pub fresh_socket : Socket
fresh_socket = record { type = etcpsock_uk; recv_conn = none; send_conn = none }

unfoldable pub etcp_socket_new : Bool → Option Socket
etcp_socket_new got_sock = if got_sock then some fresh_socket else none

-- `etcpSockeDelete`, which is also what `etcpClose` does.
unfoldable pub etcp_socke_delete : Store → Socket → Option Store
etcp_socke_delete st sock = elim sock.type [
  | etcpsock_sr ↦ conn_delete st sock.send_conn >>= (λ after. conn_delete after sock.recv_conn)
  | etcpsock_la ↦ srcs_map_delete st (la_of sock)
  | etcpsock_uk ↦ some st
]

-- The result of the calls that may move a socket.
abbrev pub Answer : Type 0
Answer = Option (EtcpError × Store × Socket)

-- The member of the socket that a mapping sets.
abbrev pub with_conn : Socket → Bool → ℕ → Socket
with_conn sock is_sender c =
    if is_sender then record sock { send_conn = some c } else record sock { recv_conn = some c }

abbrev pub with_dst_map : Store → HashTable.Ht ℕ → Store
with_dst_map st dst_map = record st { state = record (st.state) { dst_map = dst_map } }

module _ (hash64 : HtKey → ℕ) where
  -- The end of `remConnMapping`, where the map `m` of the destination goes if one socket waits in
  -- it.
  unfoldable pub rem_srcs_map : Store → ℕ → Cq (Option ℕ) → FlowId → Option (EtcpError × Store)
  rem_srcs_map st m listen_q flow =
      let emptied : Option (EtcpError × Store) = (do
        freed ← srcs_map_delete st (some m)
        some (enoerr, with_dst_map freed (rem hash64 freed.state.dst_map (dst_key flow)))) in
      if leb_ℤ listen_q.readable (pos 1) && leb_ℤ (pos 1) listen_q.readable
      then emptied
      else some (enoerr, st)

  -- Its middle, from the lookup of the connection on.
  unfoldable pub rem_conn : Store → ℕ → LaMap → FlowId → Option (EtcpError × Store)
  rem_conn st m map flow =
      let (code, conn) = HashTable.get hash64 map.table (src_key flow) in
      let removed : Option (EtcpError × Store) = (do
        freed ← conn_delete st conn
        listen_q ← map.listen_q
        rem_srcs_map freed m listen_q flow) in
      if is_enoeror code then some (enotconn, st) else removed

  -- `remConnMapping`.
  unfoldable pub rem_conn_mapping : Store → Socket → FlowId → Option (EtcpError × Store)
  rem_conn_mapping st sock flow =
      if is_sr sock.type
      then (elim (HashTable.get hash64 st.state.dst_map (dst_key flow)).1 [
        | none ↦ some (ehterr, st)
        | some m ↦ st.maps m >>= (λ map. rem_conn st m map flow)
      ])
      else some (ewrongsock, st)

  module _ (granted : ℕ → Bool) where
    -- The map of a flow's destination in `addConnMapping`, made where there is none.
    unfoldable pub source_map : Store → FlowId → ℤ → ℤ → Result EtcpError ℕ × Store
    source_map st flow vlan priority =
        elim (HashTable.get hash64 st.state.dst_map (dst_key flow)).1 [
          | some m ↦ (ok m, st)
          | none ↦
              let (made, later) = srcs_map_new granted st 0 0 vlan priority in
              elim made [
                | none ↦ (err enomem, later)
                | some m ↦
                    let (code, dst_map) =
                      add_new hash64 (granted later.callocs) later.state.dst_map (dst_key flow) m in
                    let counted = record later { callocs = later.callocs + 1 } in
                    if is_enoeror code
                    then (ok m, with_dst_map counted dst_map)
                    else (err enotconn, counted)
              ]
        ]

    -- The new connection `c`, put in the map `m` and in the socket.
    unfoldable pub place_conn : Store → Socket → ℕ → ℕ → FlowId → Bool → Answer
    place_conn st sock m c flow is_sender = do
      map ← st.maps m
      let added = add_new hash64 (granted st.callocs) map.table (src_key flow) c
      let counted = record st { callocs = st.callocs + 1 }
      let placed = record map { table = added.1 }
      let mapped = record counted { maps = update counted.maps m (some placed) }
      let refused = conn_delete counted (some c) >>= (λ freed. some (ealready, freed, sock))
      if is_enoeror added.0 then some (enoerr, mapped, with_conn sock is_sender c) else refused

    -- A connection that was made, or not, for the map `m`.
    unfoldable pub place_made : Option ℕ × Store → Socket → ℕ → FlowId → Bool → Answer
    place_made made sock m flow is_sender = elim made.0 [
      | none ↦ some (enomem, made.1, sock)
      | some c ↦ place_conn made.1 sock m c flow is_sender
    ]

    -- A map that was found or made, or not: a connection is made for it.
    unfoldable pub connect_in :
        PBuff → Result EtcpError ℕ × Store → Socket → ℕ → ℕ → FlowId → Bool → ℤ → ℤ → Answer
    connect_in zeroed found sock window_log2 buff_size flow is_sender vlan priority = elim found.0 [
      | err e ↦ some (e, found.1, sock)
      | ok m ↦
          place_made (conn_alloc granted zeroed found.1 window_log2 buff_size flow vlan priority)
            sock m flow is_sender
    ]

    -- `addConnMapping`.
    unfoldable pub add_conn_mapping :
        PBuff → Store → Socket → ℕ → ℕ → FlowId → Bool → ℤ → ℤ → Answer
    add_conn_mapping zeroed st sock window_log2 buff_size flow is_sender vlan priority =
        if is_sr sock.type
        then connect_in zeroed (source_map st flow vlan priority) sock window_log2 buff_size flow
            is_sender vlan priority
        else some (ewrongsock, st, sock)

    -- `etcpConnect`. What the two mappings answer is not read.
    unfoldable pub etcp_connect : PBuff → Store → Socket → ℕ → ℕ → FlowId → Bool → ℤ → ℤ → Answer
    etcp_connect zeroed st sock window_log2 buff_size flow do_return vlan priority =
        let ports = with_narrow_ports flow in
        let size = buff_size % 2 ^ 32 in
        let there =
          add_conn_mapping zeroed st (record sock { type = etcpsock_sr }) window_log2 size ports
            true vlan priority in
        let back : EtcpError × Store × Socket → Answer = λ r.
          add_conn_mapping zeroed r.1 r.2 window_log2 size (flipped ports) false vlan priority in
        let done : EtcpError × Store × Socket → Answer = λ r. some (enoerr, r.1, r.2) in
        if is_uk sock.type
        then (if do_return then there >>= back >>= done else there >>= done)
        else some (ewrongsock, st, sock)

    -- A map that was made, or not, put in the table and in the socket. Of the errors of `htAddNew`
    -- only one is looked at.
    unfoldable pub bind_made : Option ℕ × Store → Socket → FlowId → EtcpError × Store × Socket
    bind_made made sock flow = elim made.0 [
      | none ↦ (enomem, made.1, sock)
      | some m ↦
          let later = made.1 in
          let (code, dst_map) =
            add_new hash64 (granted later.callocs) later.state.dst_map (dst_key flow) m in
          let counted = record later { callocs = later.callocs + 1 } in
          let bound = record sock { type = etcpsock_la; recv_conn = some m } in
          if is_ealready code
          then (ealready, counted, sock)
          else (enoerr, with_dst_map counted dst_map, bound)
    ]

    -- `etcpBind`, for the destination of `flow`.
    unfoldable pub etcp_bind : Store → Socket → ℕ → ℕ → FlowId → ℤ → ℤ → EtcpError × Store × Socket
    etcp_bind st sock window_log2 buff_size flow vlan priority =
        if is_uk sock.type
        then bind_made (srcs_map_new granted st window_log2 buff_size vlan priority) sock flow
        else (ewrongsock, st, sock)

-- `etcpListen`. A queue that could not be made is stored as NULL.
unfoldable pub etcp_listen : (ℕ → Bool) → Store → Socket → ℕ → Option (EtcpError × Store)
etcp_listen granted st sock backlog_log2 =
    let n = st.callocs in
    let made =
      CircularQueue.new {A = Option ℕ} (pos sizeof_pointer) (pos backlog_log2) (granted n)
        (granted (n + 1)) none in
    let code : EtcpError = elim made [ none ↦ enomem | some _ ↦ enoerr ] in
    let listening : Option (EtcpError × Store) = (do
      m ← la_of sock
      map ← st.maps m
      some (
        code,
        record st {
          maps = update st.maps m (some (record map { listen_q = made }));
          callocs = n + 2;
        },
      )) in
    if is_la sock.type then listening else some (ewrongsock, st)
