-- ===== src/Api/Recv.antt =====
-- `etcpAccept` and `etcpRecv` of src/etcpSockApi.c.
-- The length that the user gives to receive is not negative.
use etcp.Base.{
  ℕ, Bool, ◌&&◌, Option, none, some, ℤ, pos, ltb_ℤ, ◌==◌, if◌then◌else◌, Bytes, update, ◌>>=◌,
  Buffer,
}
use etcp.CircularQueue.{Cq}
use etcp.CircularQueue.Slots.{pull_next, release_slot}
use etcp.LinkedList.{Ll}
use etcp.HashTable.{HtKey}
use etcp.NetRx.{EthFrame, do_etcp_net_rx}
use etcp.Packet.{EtcpError, enoerr, ecqerr, etryagain, ewrongsock, PBuff, SackHdr}
use etcp.Conn.{Conn}
use etcp.UserTx.{is_enoerr}
use etcp.UserRx.{do_etcp_user_rx, released_code}
use etcp.Sack.{generate_acks}
use etcp.Sack.Stale.{generate_stale_acks}
use etcp.State.{Socket, la_of, Store}
use etcp.Socket.{is_sr, is_la, sizeof_pointer}
use etcp.Api.{with_conn_at, limit, is_zero}

-- The limits of `etcpRxTc`.
pub record RxTc : Type 0 where
  pub max_ack_slots : ℤ
  pub max_ack_pkts : ℤ
  pub max_stale_slots : ℤ
  pub max_stale_ack_pkts : ℤ

-- The queue of a listening socket, and the store with it replaced.
unfoldable pub listen_q_of : Store → Option ℕ → Option (Option (Cq (Option ℕ)))
listen_q_of st la = la >>= (λ m. st.maps m >>= (λ map. some map.listen_q))

unfoldable pub with_listen_q : Store → Option ℕ → Cq (Option ℕ) → Store
with_listen_q st none cq = st
with_listen_q st (some m) cq = elim (st.maps m) [
  | none ↦ st
  | some map ↦ record st { maps = update st.maps m (some (record map { listen_q = some cq })) }
]

-- The pointer that `etcpAccept` takes out of the queue, in `*acceptSock_o`.
unfoldable pub dequeue :
    ⦃b : Buffer (Option ℕ)⦄
    → Store
    → Socket
    → Cq (Option ℕ)
    → Option ℕ
    → EtcpError × Option ℕ × Store
dequeue st sock listen_q out =
    let ((pulled, accepted, _), idx) = pull_next listen_q out sizeof_pointer in
    let (released, after) = release_slot listen_q (pos idx) in
    if is_zero listen_q.readable
    then (etryagain, out, st)
    else (if is_enoerr pulled
        then (released_code released, accepted, with_listen_q st (la_of sock) after)
        else (ecqerr, accepted, st))

module _ ⦃b : Buffer PBuff⦄ (as_buffer : SackHdr → PBuff) (hash64 : HtKey → ℕ) (granted : ℕ → Bool)
    (zeroed : PBuff) {W : Type 0} (clock : W → ℕ × W) (eth_hw_rx : W → ℤ × EthFrame × ℕ × W) where
  -- `doEtcpNetRx`, where receiving is triggered by events; 0 packets where it is not.
  unfoldable pub triggered_rx : ℕ → Store → W → Option (ℕ × Store × W)
  triggered_rx fuel st w =
      if st.state.event_triggered_rx
      then do_etcp_net_rx as_buffer hash64 granted zeroed clock eth_hw_rx fuel fuel st w
      else some (0, st, w)

  -- `etcpAccept`: the code, `*acceptSock_o` that was `out`, and the store.
  unfoldable pub etcp_accept :
      ⦃s : Buffer (Option ℕ)⦄
      → ℕ
      → Store
      → Socket
      → Option ℕ
      → W
      → Option (EtcpError × Option ℕ × Store × W)
  etcp_accept fuel st sock out w =
      let heard : Option (EtcpError × Option ℕ × Store × W) = (do
        rx ← triggered_rx fuel st w
        listening ← listen_q_of rx.1 (la_of sock)
        listen_q ← listening
        let taken = dequeue rx.1 sock listen_q out
        some (taken.0, taken.1, taken.2, rx.2)) in
      let listens : Option (Cq (Option ℕ)) → Option (EtcpError × Option ℕ × Store × W) =
        λ q. elim q [ none ↦ some (ewrongsock, out, st, w) | some _ ↦ heard ] in
      if is_la sock.type
      then listen_q_of st (la_of sock) >>= listens
      else some (ewrongsock, out, st, w)

  module _ (etcp_rx_tc : W → Cq PBuff → Ll PBuff → Cq PBuff → RxTc × W) where
    -- The acknowledgements that transmission control asks for. What the two functions answer is not
    -- read.
    unfoldable pub acknowledge : Conn → W → Option (Conn × W)
    acknowledge conn w =
        let (answer, w_asked) = etcp_rx_tc w conn.rx_q conn.stale_q conn.tx_q in
        let slots = pos conn.rx_q.slot_count in
        let stale = conn.stale_q.slot_count in
        let max_pkts = limit answer.max_ack_pkts slots in
        let max_slots = limit answer.max_ack_slots slots in
        let max_stale_pkts = limit answer.max_stale_ack_pkts stale in
        let max_stale_slots = limit answer.max_stale_slots stale in
        let acked : Option (EtcpError × Conn) =
          if ltb_ℤ (pos 0) max_pkts && ltb_ℤ (pos 0) max_slots
          then generate_acks conn max_pkts max_slots
          else some (enoerr, conn) in
        let settled : Conn → Option (EtcpError × Conn) = λ after.
          if ltb_ℤ (pos 0) max_stale_pkts && ltb_ℤ (pos 0) max_stale_slots
          then generate_stale_acks after max_stale_pkts max_stale_slots
          else some (enoerr, after) in
        acked >>= (λ r. settled r.1 >>= (λ q. some (q.1, w_asked)))

    -- `etcpRecv` for the connection `c` once packets were received, `len` bytes at most.
    unfoldable pub recv_from :
        ℕ → ℕ → Store → ℕ → Bytes → ℕ → W → Option (EtcpError × Bytes × Store × W)
    recv_from fuel rx_packets st c dat len w =
        let given : Conn → Option (EtcpError × Bytes × Store × W) = λ conn.
          acknowledge conn w >>= (λ a.
            do_etcp_user_rx fuel a.0.rx_q dat len
            >>= (λ r. some (r.0, r.1, with_conn_at st c (record (a.0) { rx_q = r.2 }), a.1))) in
        let checked : Conn → Option (EtcpError × Bytes × Store × W) = λ conn.
          if (rx_packets == 0) && is_zero conn.rx_q.readable
          then some (etryagain, dat, st, w)
          else given conn in
        if len == 0 then some (enoerr, dat, st, w) else st.conns c >>= checked

    -- `etcpRecv`. A NULL pointer for the bytes or for their length is a length of 0.
    unfoldable pub etcp_recv :
        ℕ → Store → Socket → Bytes → ℕ → W → Option (EtcpError × Bytes × Store × W)
    etcp_recv fuel st sock dat len w =
        let heard : ℕ → Option (EtcpError × Bytes × Store × W) =
          λ c. triggered_rx fuel st w >>= (λ rx. recv_from fuel rx.0 rx.1 c dat len rx.2) in
        let received : ℕ → Conn → Option (EtcpError × Bytes × Store × W) =
          λ c conn. if is_zero conn.rx_q.available then some (etryagain, dat, st, w) else heard c in
        if is_sr sock.type
        then sock.recv_conn >>= (λ c. st.conns c >>= received c)
        else some (ewrongsock, dat, st, w)
