-- ===== src/UserTx/Outcomes.antt =====
-- What `doEtcpUserTx` of src/etcp.c leaves in the send queue, and how it ends.
use etcp.Base.{
  ℕ, zero, suc, ◌+◌, ◌-◌, ◌<◌, ◌≡◌, refl, Bool, true, false, Option, some, ℤ, pos, arith,
  Bool-cases, inl, inr, ok, err, min, Bytes, Result, Result-cases, ◌⊎◌, if◌then◌else◌, ltb,
  ltb_of_le, ap, ◌≤◌, if-both,
}
use etcp.CircularQueue.Slots.{room, get_next_wr, commit_slot, write_buff}
use etcp.CircularQueue.Window.{IsValid}
use etcp.CircularQueue.Invariant.{commit_slot-IsValid, write_buff-IsValid}
use etcp.CircularQueue.{Cq, CqError}
use etcp.CircularQueue.Outcomes.{Commits, low, high, long, taken, waits, moves, commit_slot-Commits}
use etcp.Packet.{EtcpError, enoerr, efatal, PBuff, sizeof_pbuff}
use etcp.Conn.{Conn}
use etcp.UserTx.{
  mk_eth_pkt, hdrs_len, dat_packet, bare, framed, is_enoerr, no_slot_code, no_slot_len, tx_turn,
  tx_loop, do_etcp_user_tx, written,
}

mk_eth_pkt-length :
    (len : ℕ) (vlan : ℤ)
    → (mk_eth_pkt len vlan ≡ err efatal) ⊎ ((n : ℕ) × (mk_eth_pkt len vlan ≡ ok n))
unfolding mk_eth_pkt
mk_eth_pkt-length len vlan = ground arith

mk_eth_pkt-le : (len : ℕ) (vlan : ℤ) (n : ℕ) → mk_eth_pkt len vlan ≡ ok n → n ≤ 16
unfolding mk_eth_pkt
mk_eth_pkt-le len vlan n made = ground arith

-- The bytes that a turn writes, at most.
written-le :
    (buff_size : ℕ) (vlan : ℤ) (n : ℕ) → written buff_size vlan n ≤ sizeof_pbuff + 16 + hdrs_len + n
written-le buff_size vlan n = elim (Result-cases (mk_eth_pkt buff_size vlan)) [
  | inr (e, short) ↦ rw (short, written) (omega arith)
  | inl (eth_len, framing) ↦
      let le = mk_eth_pkt-le buff_size vlan eth_len framing in
      rw (framing, written)
        (if-both (λ k. k ≤ sizeof_pbuff + 16 + hdrs_len + n)
          (ltb (buff_size - eth_len) (hdrs_len + 1)) (omega (arith, le)) (omega (arith, le)))
]

-- A commit keeps the size of the slots.
Commits-slot_size :
    (cq : Cq PBuff) (k : ℤ) (len : ℕ) {r : CqError × Cq PBuff}
    → Commits cq k len r
    → r.1.slot_size ≡ cq.slot_size
Commits-slot_size cq k len (low h e) = ap (λ r. r.1.slot_size) e
Commits-slot_size cq k len (high j at h e) = ap (λ r. r.1.slot_size) e
Commits-slot_size cq k len (long j at h e) = ap (λ r. r.1.slot_size) e
Commits-slot_size cq k len (taken j at h f e) = ap (λ r. r.1.slot_size) e
Commits-slot_size cq k len (waits j at h f ne e) = ap (λ r. r.1.slot_size) e
Commits-slot_size cq k len (moves w at h f gt first e) = ap (λ r. r.1.slot_size) e

-- A state of the loop: the queue is well formed, and its slots have the size they had, and a turn
-- that succeeded took a byte at least.
abbrev Progresses : {W : Type 0} → ℕ → Result EtcpError ℕ × Conn × W → Type 0
Progresses size r = IsValid r.1.tx_q × (r.1.tx_q.slot_size ≡ size) × ((k : ℕ) → r.0 ≡ ok k → 0 < k)

if-Progresses :
    {W : Type 0} (size : ℕ) (b : Bool) (x y : Result EtcpError ℕ × Conn × W)
    → (b ≡ true → Progresses size x)
    → (b ≡ false → Progresses size y)
    → Progresses size (if b then x else y)
if-Progresses size true x y px py = px refl
if-Progresses size false x y px py = py refl

module _ {W : Type 0} (clock : W → ℕ × W) where
  tx_turn-Progresses :
      (conn : Conn) (s seq : ℕ) (src : Bytes) (n : ℕ) (w : W)
      → IsValid conn.tx_q
      → 0 < n
      → Progresses conn.tx_q.slot_size (tx_turn clock conn s seq src n w)
  unfolding tx_turn
  tx_turn-Progresses conn s seq src n w v some_bytes =
      let slot = conn.tx_q.slots s in
      let buff_size = slot.len - 8 in
      elim (Result-cases (mk_eth_pkt buff_size conn.vlan)) [
        | inr (e, short) ↦
            rw (short, tx_turn)
              (
                write_buff-IsValid conn.tx_q s (bare slot.buff buff_size) v,
                refl,
                λ k f. ground arith,
              )
        | inl (eth_len, framing) ↦
            let dat_len = min (buff_size - eth_len - hdrs_len) n in
            let p = dat_packet conn slot.buff buff_size eth_len dat_len (clock w).0 src in
            let len = eth_len + hdrs_len + dat_len in
            let stored = write_buff-IsValid conn.tx_q s p v in
            let valid = commit_slot-IsValid (write_buff conn.tx_q s p) (pos seq) len stored in
            let size =
              Commits-slot_size (write_buff conn.tx_q s p) (pos seq) len
                (commit_slot-Commits (write_buff conn.tx_q s p) (pos seq) len stored) in
            rw (framing, tx_turn)
              (if-Progresses conn.tx_q.slot_size (ltb (buff_size - eth_len) (hdrs_len + 1)) _ _
                (λ tight. (
                  write_buff-IsValid conn.tx_q s (framed slot.buff buff_size eth_len) v,
                  refl,
                  λ k f. ground arith,
                ))
                (λ fits.
                  if-Progresses conn.tx_q.slot_size
                    (is_enoerr (commit_slot (write_buff conn.tx_q s p) (pos seq) len).0) _ _
                    (λ _. (valid, size, λ k f. ground arith))
                    (λ _. (valid, size, λ k f. ground arith))))
      ]

  -- The loop has an answer, with a well-formed queue.
  abbrev Ends : Option (EtcpError × ℕ × Conn × W) → Type 0
  Ends result = (r : EtcpError × ℕ × Conn × W) × (result ≡ some r) × IsValid r.2.tx_q

  after_turn :
      (fuel n sent size : ℕ) (src : Bytes) (r : Result EtcpError ℕ × Conn × W)
      → Progresses size r
      → ((k : ℕ)
          → 0 < k
          → IsValid r.1.tx_q
          → r.1.tx_q.slot_size ≡ size
          → Ends (tx_loop clock fuel r.1 src n (sent + k) r.2))
      → Ends (elim r.0 [
        | err e ↦ some (e, n, r.1, r.2)
        | ok k ↦ tx_loop clock fuel r.1 src n (sent + k) r.2
      ])
  after_turn fuel n sent size src (err e, after, w) (valid, kept, grows) later =
      ((e, n, after, w), refl, valid)
  after_turn fuel n sent size src (ok k, after, w) (valid, kept, grows) later =
      later k (grows k refl) valid kept

  tx_loop-Ends :
      (fuel : ℕ) (conn : Conn) (src : Bytes) (n sent : ℕ) (w : W)
      → IsValid conn.tx_q
      → sizeof_pbuff + 16 + hdrs_len + n ≤ room conn.tx_q
      → n < fuel + sent
      → 0 < fuel
      → Ends (tx_loop clock fuel conn src n sent w)
  unfolding tx_loop
  tx_loop-Ends zero conn src n sent w v inside enough some_fuel = absurd (omega arith)
  tx_loop-Ends (suc fuel) conn src n sent w v inside enough some_fuel =
      elim (Bool-cases (ltb sent n)) [
        | inr all ↦ rw all ((enoerr, sent, conn, w), refl, v)
        | inl more ↦ elim (Result-cases (get_next_wr conn.tx_q)) [
          | inr (e, none_free) ↦
              rw (more, tx_loop)
                (rw (none_free, tx_loop) ((no_slot_code e, no_slot_len e sent n, conn, w), refl, v))
          | inl (at, found) ↦
              let progress = tx_turn-Progresses conn at.0 at.1 src n w v (ground arith) in
              let r = tx_turn clock conn at.0 at.1 src n w in
              let buff_size = (conn.tx_q.slots at.0).len - 8 in
              let stays : ltb (room conn.tx_q) (written buff_size conn.vlan n) ≡ false =
                ltb_of_le (room conn.tx_q) (written buff_size conn.vlan n)
                  (omega (arith, written-le buff_size conn.vlan n)) in
              rw (more, tx_loop)
                (rw (found, tx_loop)
                  (rw (stays, tx_loop)
                    (after_turn fuel n sent conn.tx_q.slot_size src r progress
                      (λ k some_taken valid kept.
                        tx_loop-Ends fuel r.1 src n (sent + k) r.2 valid (omega (arith, kept))
                          (omega arith) (ground arith)))))
        ]
      ]

  -- Where the send queue is well formed, and its slots have space behind their headers for the
  -- packet structure, the longest headers and the whole message, `doEtcpUserTx` ends, with fuel for
  -- one turn more than there are bytes to send, whatever the slots hold, and leaves the send queue well formed.
  pub do_etcp_user_tx-ends :
      (fuel : ℕ) (conn : Conn) (src : Bytes) (n : ℕ) (w : W)
      → IsValid conn.tx_q
      → sizeof_pbuff + 16 + hdrs_len + n ≤ room conn.tx_q
      → n < fuel
      → (r : EtcpError × ℕ × Conn × W) × (do_etcp_user_tx clock fuel conn src n w ≡ some r)
        × IsValid r.2.tx_q
  unfolding do_etcp_user_tx
  do_etcp_user_tx-ends fuel conn src n w v inside enough =
      tx_loop-Ends fuel conn src n 0 w v inside (omega arith) (omega arith)
