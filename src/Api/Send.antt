-- ===== src/Api/Send.antt =====
-- `etcpSend` of src/etcpSockApi.c.
-- The callback for sending is handed the queues and may change them; here it gives them back. It has
-- no answer where it ends the process.
use etcp.Base.{
  ℕ, Bool, true, ◌||◌, Option, none, some, ℤ, pos, pos_part, ltb_ℤ, if◌then◌else◌, Bytes, ◌>>=◌,
}
use etcp.CircularQueue.{Cq}
use etcp.Packet.{EtcpError, enoerr, ewrongsock, PBuff}
use etcp.NetTx.{do_etcp_net_tx}
use etcp.UserTx.{do_etcp_user_tx}
use etcp.State.{Socket, Store}
use etcp.Socket.{is_sr}
use etcp.Api.{with_conn_at, limit, int64_max}

-- The queues that `etcpTxTc` is handed, and its answer.
pub record Queues : Type 0 where
  pub send_tx_q : Option (Cq PBuff)
  pub send_rx_q : Option (Cq PBuff)
  pub recv_tx_q : Option (Cq PBuff)
  pub recv_rx_q : Option (Cq PBuff)

pub record TxTc : Type 0 where
  pub ack_first : Bool
  pub max_ack : ℤ
  pub max_dat : ℤ
  pub queues : Queues

-- The queues of a connection that may be NULL, read and written back.
unfoldable pub rx_q_of : Store → Option ℕ → Option (Cq PBuff)
rx_q_of st c = c >>= (λ at. st.conns at >>= (λ conn. some conn.rx_q))

unfoldable pub tx_q_of : Store → Option ℕ → Option (Cq PBuff)
tx_q_of st c = c >>= (λ at. st.conns at >>= (λ conn. some conn.tx_q))

unfoldable pub with_queues : Store → Option ℕ → Option (Cq PBuff) → Option (Cq PBuff) → Store
with_queues st (some c) (some tx_q) (some rx_q) = elim (st.conns c) [
  | none ↦ st
  | some conn ↦ with_conn_at st c (record conn { tx_q = tx_q; rx_q = rx_q })
]
with_queues st _ _ _ = st

module _ {W : Type 0} (clock : W → ℕ × W) where
  module _ (eth_hw_tx : W → PBuff → ℤ × ℕ × W) where
    -- `doEtcpNetTx` on the send queue of a connection that may be NULL.
    unfoldable pub net_tx_conn : ℕ → Store → Option ℕ → ℤ → W → Option (Store × W)
    net_tx_conn fuel st none max_slots w = some (st, w)
    net_tx_conn fuel st (some c) max_slots w = do
      conn ← st.conns c
      sent ← do_etcp_net_tx clock eth_hw_tx fuel conn.tx_q max_slots w
      some (with_conn_at st c (record conn { tx_q = sent.1 }), sent.2)

    -- Acknowledgements and data, in the order that `ackFirst` says.
    unfoldable pub transmit : ℕ → Store → Socket → Bool → ℤ → ℤ → W → Option (Store × W)
    transmit fuel st sock ack_first max_ack max_dat w =
        let acks_then : Option (Store × W) =
          net_tx_conn fuel st sock.recv_conn max_ack w
          >>= (λ r. net_tx_conn fuel r.0 sock.send_conn max_dat r.1) in
        let dats_then : Option (Store × W) =
          net_tx_conn fuel st sock.send_conn max_dat w
          >>= (λ r. net_tx_conn fuel r.0 sock.recv_conn max_ack r.1) in
        if ltb_ℤ (pos 0) max_ack || ltb_ℤ (pos 0) max_dat
        then (if ack_first then acks_then else dats_then)
        else some (st, w)

    module _ (etcp_tx_tc : W → Queues → Option (TxTc × W)) where
      -- What is asked of transmission control, if sending is triggered by events.
      unfoldable pub send_limits : Store → Socket → W → Option (TxTc × Store × W)
      send_limits st sock w =
          let queues : Queues = record {
            send_tx_q = tx_q_of st sock.send_conn;
            send_rx_q = rx_q_of st sock.send_conn;
            recv_tx_q = tx_q_of st sock.recv_conn;
            recv_rx_q = rx_q_of st sock.recv_conn;
          } in
          let unasked : TxTc = record {
            ack_first = true;
            max_ack = ℤ.negsuc 0;
            max_dat = ℤ.negsuc 0;
            queues = queues;
          } in
          let asked : Option (TxTc × Store × W) = (do
            answer ← etcp_tx_tc w queues
            let q = answer.0.queues
            let sent = with_queues st sock.send_conn q.send_tx_q q.send_rx_q
            let after = with_queues sent sock.recv_conn q.recv_tx_q q.recv_rx_q
            some (answer.0, after, answer.1)) in
          if st.state.event_triggered_tx then asked else some (unasked, st, w)

      -- The user's bytes, if there are any: `*toSendLen_io`, and the store.
      unfoldable pub send_bytes : ℕ → Store → Socket → Option Bytes → ℤ → W → Option (ℤ × Store × W)
      send_bytes fuel st sock none len w = some (len, st, w)
      send_bytes fuel st sock (some src) len w =
          let queued : Option (ℤ × Store × W) = (do
            c ← sock.send_conn
            conn ← st.conns c
            done ← do_etcp_user_tx clock fuel conn src (pos_part len) w
            some (pos done.1, with_conn_at st c done.2, done.3)) in
          if ltb_ℤ (pos 0) len then queued else some (len, st, w)

      -- `etcpSend`. What `doEtcpUserTx` answers is not read.
      unfoldable pub etcp_send :
          ℕ → Store → Socket → Option Bytes → ℤ → W → Option (EtcpError × ℤ × Store × W)
      etcp_send fuel st sock src len w =
          let sent : Option (EtcpError × ℤ × Store × W) = (do
            queued ← send_bytes fuel st sock src len w
            asked ← send_limits queued.1 sock queued.2
            let max_ack = limit asked.0.max_ack int64_max
            let max_dat = limit asked.0.max_dat int64_max
            after ← transmit fuel asked.1 sock asked.0.ack_first max_ack max_dat asked.2
            some (enoerr, queued.0, after.0, after.1)) in
          if is_sr sock.type then sent else some (ewrongsock, len, st, w)
