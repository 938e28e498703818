-- ===== src/UserTx/Single.antt =====
-- A message that fits a slot, sent by `doEtcpUserTx` of src/etcp.c.
use etcp.Base.{
  ℕ, suc, ◌+◌, ◌-◌, ◌%◌, ◌^◌, ◌≤◌, ◌<◌, ◌≡◌, refl, ap, ◌∙◌, true, false, Option, some, pos, arith,
  ok, err, min, Bytes, Result, ltb, lt→ltb, ltb_of_le,
}
use etcp.CircularQueue.{Slot}
use etcp.CircularQueue.Slots.{room, commit_slot, write_buff}
use etcp.CircularQueue.Window.{IsValid, slot_of}
use etcp.CircularQueue.Next.{get_next_wr-free, write-commit}
use etcp.Packet.{PBuff, EtcpError, enoerr, rdy, etcp_dat, sizeof_pbuff}
use etcp.Conn.{Conn}
use etcp.UserTx.{mk_eth_pkt, hdrs_len, dat_packet, tx_turn, tx_loop, do_etcp_user_tx, written}

-- A slot that holds a message of `n` bytes as the connection's next packet, ready to be sent.
pub record HoldsMessage (conn : Conn) (src : Bytes) (n size : ℕ) (slot : Slot PBuff) : Type 0 where
  valid : slot.valid ≡ true
  len : slot.len ≡ size
  tx_state : slot.buff.tx_state ≡ rdy
  type : slot.buff.etcp_hdr.type ≡ etcp_dat
  seq_num : slot.buff.etcp_dat_hdr.seq_num ≡ conn.seq_snd
  dat_len : slot.buff.etcp_dat_hdr.dat_len ≡ n % 2 ^ 32
  tx_attempts : slot.buff.etcp_dat_hdr.tx_attempts ≡ 0
  payload : (i : ℕ) → i < n → slot.buff.payload i ≡ src i

-- The connection once the packet `p` of `len` bytes is committed.
abbrev pub sent : Conn → PBuff → ℕ → Conn
sent conn p len = record conn {
  tx_q =
      (commit_slot (write_buff conn.tx_q (conn.tx_q.wr_seq % conn.tx_q.slot_count) p)
        (pos conn.tx_q.wr_seq) len).1;
  seq_snd = conn.seq_snd + 1;
}

module _ {W : Type 0} (clock : W → ℕ × W) where
  -- The turn that sends a message of `n` bytes that fits the slot of the write number.
  tx_turn-whole :
      (conn : Conn) (src : Bytes) (n eth_len : ℕ) (w : W)
      → IsValid conn.tx_q
      → conn.tx_q.wr_seq < conn.tx_q.rd_seq + conn.tx_q.slot_count
      → let slot = slot_of conn.tx_q conn.tx_q.wr_seq in
        mk_eth_pkt (slot.len - 8) conn.vlan ≡ ok eth_len
        → 0 < n
        → eth_len + hdrs_len + n ≤ (slot_of conn.tx_q conn.tx_q.wr_seq).len - 8
        → let i = conn.tx_q.wr_seq % conn.tx_q.slot_count in
          let slot = conn.tx_q.slots i in
          let p = dat_packet conn slot.buff (slot.len - 8) eth_len n (clock w).0 src in
          let len = eth_len + hdrs_len + n in
          tx_turn clock conn i conn.tx_q.wr_seq src n w ≡ (
            ok n,
            record conn {
              tx_q = (commit_slot (write_buff conn.tx_q i p) (pos conn.tx_q.wr_seq) len).1;
              seq_snd = conn.seq_snd + 1;
            },
            (clock w).1,
          )
  unfolding tx_turn
  tx_turn-whole conn src n eth_len w v space framing some_bytes fits =
      let i = conn.tx_q.wr_seq % conn.tx_q.slot_count in
      let slot = conn.tx_q.slots i in
      let p = dat_packet conn slot.buff (slot.len - 8) eth_len n (clock w).0 src in
      let whole : min (slot.len - 8 - eth_len - hdrs_len) n ≡ n = omega arith in
      let roomy : ltb (slot.len - 8 - eth_len) (hdrs_len + 1) ≡ false =
        ltb_of_le (slot.len - 8 - eth_len) (hdrs_len + 1) (omega arith) in
      let made = write-commit conn.tx_q p (eth_len + hdrs_len + n) v space (omega arith) in
      rw (framing, tx_turn)
        (rw (roomy, tx_turn) (rw (whole, tx_turn) (rw (made.code, tx_turn) refl)))

  -- What the loop makes of its first turn.
  abbrev turn_answer :
      ℕ → ℕ → Bytes → Result EtcpError ℕ × Conn × W → Option (EtcpError × ℕ × Conn × W)
  turn_answer fuel n src r = elim r.0 [
    | err e ↦ some (e, n, r.1, r.2)
    | ok k ↦ tx_loop clock fuel r.1 src n (0 + k) r.2
  ]

  pub do_etcp_user_tx-sent :
      (fuel : ℕ) (conn : Conn) (src : Bytes) (n eth_len : ℕ) (w : W)
      → IsValid conn.tx_q
      → conn.tx_q.wr_seq < conn.tx_q.rd_seq + conn.tx_q.slot_count
      → mk_eth_pkt ((slot_of conn.tx_q conn.tx_q.wr_seq).len - 8) conn.vlan ≡ ok eth_len
      → 0 < n
      → eth_len + hdrs_len + n ≤ (slot_of conn.tx_q conn.tx_q.wr_seq).len - 8
      → sizeof_pbuff + eth_len + hdrs_len + n ≤ room conn.tx_q
      → let slot = slot_of conn.tx_q conn.tx_q.wr_seq in
        let p = dat_packet conn slot.buff (slot.len - 8) eth_len n (clock w).0 src in
        do_etcp_user_tx clock (suc (suc fuel)) conn src n w
        ≡ some (enoerr, n, sent conn p (eth_len + hdrs_len + n), (clock w).1)
  unfolding do_etcp_user_tx tx_loop
  do_etcp_user_tx-sent fuel conn src n eth_len w v space framing some_bytes fits inside =
      let slot = slot_of conn.tx_q conn.tx_q.wr_seq in
      let p = dat_packet conn slot.buff (slot.len - 8) eth_len n (clock w).0 src in
      let after = sent conn p (eth_len + hdrs_len + n) in
      let more : ltb 0 n ≡ true = lt→ltb 0 n some_bytes in
      let turn = tx_turn-whole conn src n eth_len w v space framing some_bytes fits in
      let roomy : ltb (slot.len - 8 - eth_len) (hdrs_len + 1) ≡ false =
        ltb_of_le (slot.len - 8 - eth_len) (hdrs_len + 1) (omega arith) in
      let size : written (slot.len - 8) conn.vlan n ≡ sizeof_pbuff + eth_len + hdrs_len + n =
        rw (framing, written) (rw (roomy, written) (omega (arith, fits))) in
      let stays : ltb (room conn.tx_q) (written (slot.len - 8) conn.vlan n) ≡ false =
        ltb_of_le (room conn.tx_q) (written (slot.len - 8) conn.vlan n) (omega (arith, size)) in
      let done : ltb (0 + n) n ≡ false = ltb_of_le (0 + n) n (omega arith) in
      let all : 0 + n ≡ n = omega arith in
      rw (more, tx_loop)
        (rw (get_next_wr-free conn.tx_q v.shape space (v.frontier space), tx_loop)
          (rw (stays, tx_loop)
            (ap (turn_answer (suc fuel) n src) turn
              ∙ rw done (ap (λ k. some (enoerr, k, after, (clock w).1)) all))))

  -- In a well-formed send queue whose window has room, a message of at least one byte that fits the
  -- slot of the write number, headers included, both by the slot's length and by the bytes that the
  -- slot has behind its header and the packet structure, goes out whole: `doEtcpUserTx`, with fuel for two
  -- turns or more, succeeds, counts all its bytes, and leaves there one packet that is ready to be
  -- sent, with the connection's next sequence number and the message as its payload.
  pub do_etcp_user_tx-whole :
      (fuel : ℕ) (conn : Conn) (src : Bytes) (n eth_len : ℕ) (w : W)
      → IsValid conn.tx_q
      → conn.tx_q.wr_seq < conn.tx_q.rd_seq + conn.tx_q.slot_count
      → mk_eth_pkt ((slot_of conn.tx_q conn.tx_q.wr_seq).len - 8) conn.vlan ≡ ok eth_len
      → 0 < n
      → eth_len + hdrs_len + n ≤ (slot_of conn.tx_q conn.tx_q.wr_seq).len - 8
      → sizeof_pbuff + eth_len + hdrs_len + n ≤ room conn.tx_q
      → (after : Conn) × (do_etcp_user_tx clock (suc (suc fuel)) conn src n w
          ≡ some (enoerr, n, after, (clock w).1))
        × HoldsMessage conn src n
            (eth_len + hdrs_len + n)
            (after.tx_q.slots (conn.tx_q.wr_seq % conn.tx_q.slot_count))
        × (after.seq_snd ≡ conn.seq_snd + 1)
  do_etcp_user_tx-whole fuel conn src n eth_len w v space framing some_bytes fits inside =
      let slot = slot_of conn.tx_q conn.tx_q.wr_seq in
      let p = dat_packet conn slot.buff (slot.len - 8) eth_len n (clock w).0 src in
      let made = write-commit conn.tx_q p (eth_len + hdrs_len + n) v space (omega arith) in
      let held : HoldsMessage conn src n (eth_len + hdrs_len + n) (
          (sent conn p (eth_len + hdrs_len + n)).tx_q.slots
            (conn.tx_q.wr_seq % conn.tx_q.slot_count)) =
        rw made.written (record {
          valid = refl;
          len = refl;
          tx_state = refl;
          type = refl;
          seq_num = refl;
          dat_len = refl;
          tx_attempts = refl;
          payload = λ i less. rw (lt→ltb i n less) refl;
        }) in
      (
        sent conn p (eth_len + hdrs_len + n),
        do_etcp_user_tx-sent fuel conn src n eth_len w v space framing some_bytes fits inside,
        held,
        refl,
      )
