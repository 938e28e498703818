-- ===== src/NewConn.antt =====
-- `addNewConn` of src/etcpSockApi.c: a socket for the sender of a first packet, put in the queue of
-- a listening destination, and `etcpAccept`'s end of that queue.
-- The labels of the function's failures are definitions: each frees and goes on to the next. A
-- connection that two of them free is freed twice, and the call then has no result.
use etcp.Base.{
  ℕ, ◌+◌, Bool, true, false, not, Option, none, some, pos, negsuc, if◌then◌else◌, ok, err, update,
  ◌>>=◌,
}
use etcp.CircularQueue.{CqError}
use etcp.CircularQueue.Slots.{get_next_wr, commit_slot, write_buff}
use etcp.HashTable.{HtKey}
use etcp.Packet.{EtcpError, enoerr, enomem, ecqerr, ehterr, erejconn, PBuff}
use etcp.Conn.{FlowId}
use etcp.UserTx.{is_enoerr}
use etcp.Sack.{succeeds}
use etcp.State.{Socket, LaMap, Store, etcpsock_sr, conn_delete}
use etcp.Socket.{
  fresh_socket, with_narrow_ports, flipped, etcp_socke_delete, add_conn_mapping, sizeof_pointer,
}

-- What the function makes of an error of `cqGetNextWr`.
abbrev pub reject_code : CqError → EtcpError
reject_code CqError.enoslot = erejconn
reject_code _ = ehterr

-- The code, the store, `*connRecv_o` and `*connSend_o`.
abbrev pub NewConn : Type 0
NewConn = Option (EtcpError × Store × Option ℕ × Option ℕ)

-- `failDelSock`, `failRemRecvConn` and `failRemSendConn`.
unfoldable pub fail_del_sock : Store → Socket → EtcpError → NewConn
fail_del_sock st sock result =
    etcp_socke_delete st sock >>= (λ freed. some (result, freed, none, none))

unfoldable pub fail_rem_recv_conn : Store → Socket → EtcpError → NewConn
fail_rem_recv_conn st sock result =
    conn_delete st sock.recv_conn >>= (λ freed. fail_del_sock freed sock result)

unfoldable pub fail_rem_send_conn : Store → Socket → EtcpError → NewConn
fail_rem_send_conn st sock result =
    conn_delete st sock.send_conn >>= (λ freed. fail_rem_recv_conn freed sock result)

-- The socket `sock`, with the pointer `s`, committed to slot `i` of number `seq` in the queue of
-- the map `m`. A commit that fails answers etcpECQERR whatever went before.
unfoldable pub enqueue : Store → ℕ → ℕ → ℕ → ℕ → Socket → NewConn
enqueue st m i seq s sock = do
  map ← st.maps m
  listen_q ← map.listen_q
  let committed = commit_slot (write_buff listen_q i (some s)) (pos seq) sizeof_pointer
  let listening = record map { listen_q = some committed.1 }
  let later = record st {
    maps = update st.maps m (some listening);
    socks = update st.socks s (some sock);
  }
  let listed = some (enoerr, later, sock.recv_conn, sock.send_conn)
  if is_enoerr committed.0 then listed else fail_rem_send_conn later sock ecqerr

module _ (hash64 : HtKey → ℕ) (granted : ℕ → Bool) (zeroed : PBuff) where
  -- The way back, where the packet asks for none; then the queue.
  unfoldable pub add_return : Store → LaMap → ℕ → ℕ → ℕ → ℕ → Socket → FlowId → Bool → NewConn
  add_return st map m i seq s sock flow no_ret =
      let require_return = not no_ret in
      let back =
        add_conn_mapping hash64 granted zeroed st sock map.listen_window_size_log2
          map.listen_buff_size (flipped flow) true (negsuc 0) (pos 1) in
      let settled : EtcpError × Store × Socket → NewConn =
        λ r. if succeeds r.0 then enqueue r.1 m i seq s r.2 else fail_rem_recv_conn r.1 r.2 r.0 in
      if not require_return then back >>= settled else enqueue st m i seq s sock

  -- The connection that the packet comes on; then the way back.
  unfoldable pub add_accept_sock : Store → LaMap → ℕ → ℕ → ℕ → FlowId → Bool → NewConn
  add_accept_sock st map m i seq flow no_ret =
      let s = st.callocs in
      let counted = record st { callocs = s + 1 } in
      let ports = with_narrow_ports flow in
      let sock = record fresh_socket { type = etcpsock_sr } in
      let there =
        add_conn_mapping hash64 granted zeroed counted sock map.listen_window_size_log2
          map.listen_buff_size ports false map.vlan map.priority in
      let settled : EtcpError × Store × Socket → NewConn = λ r.
        if succeeds r.0
        then add_return r.1 map m i seq s r.2 ports no_ret
        else fail_del_sock r.1 r.2 r.0 in
      if granted s then there >>= settled else some (enomem, counted, none, none)

  -- `addNewConn`, for the map `m`. A missing queue is an error of `cqGetNextWr`.
  unfoldable pub add_new_conn : Store → ℕ → FlowId → Bool → NewConn
  add_new_conn st m flow no_ret = st.maps m >>= (λ map. elim map.listen_q [
    | none ↦ some (ehterr, st, none, none)
    | some listen_q ↦ elim (get_next_wr listen_q) [
      | err e ↦ some (reject_code e, st, none, none)
      | ok at ↦ add_accept_sock st map m at.0 at.1 flow no_ret
    ]
  ])
