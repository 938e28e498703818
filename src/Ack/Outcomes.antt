-- ===== src/Ack/Outcomes.antt =====
-- Every outcome of `etcpProcessAck` in src/etcp.c.
use etcp.Base.{
  ==_iff, ℕ, ◌+◌, ◌%◌, ◌≤◌, ◌<◌, ◌≡◌, ◌≢◌, refl, subst, true, false, pos, arith, Bool-cases, inl,
  inr, ltb, ◌==◌,
}
use native.Mathlib.Decide.{dec_lt, ℕ_discrete}
use etcp.CircularQueue.{Cq, CqError}
use etcp.CircularQueue.Slots.{get_rd, emptied}
use etcp.CircularQueue.Window.{IsValid, occupied, slot_of, get-inside, get-above}
use etcp.CircularQueue.Advance.{FirstFull}
use etcp.CircularQueue.Moved.{rd_moved}
use etcp.CircularQueue.Outcomes.{release_slot-Releases, Releases, low, high, vacant, waits, moves}
use etcp.Packet.{EtcpError, enoerr, ecqerr, PBuff}
use etcp.Ack.{process_ack}
use etcp.UserRx.{released_code}

-- An acknowledgement of a number below the window is taken for a repeated one; a number beyond the
-- window or without a packet is an error; a slot that holds a packet of another number is left; the
-- first packet's slot is released and the read number moves on; and the slot of a later packet is
-- released too, but reported as an error.
pub data Acks (cq : Cq PBuff) (seq : ℕ) (r : EtcpError × Cq PBuff) : Type 0 where
  repeated : seq < cq.rd_seq → r ≡ (enoerr, cq) → Acks cq seq r
  beyond : cq.rd_seq + cq.slot_count ≤ seq → r ≡ (ecqerr, cq) → Acks cq seq r
  absent :
      cq.rd_seq ≤ seq
      → seq < cq.rd_seq + cq.slot_count
      → occupied cq seq ≡ false
      → r ≡ (ecqerr, cq)
      → Acks cq seq r
  other :
      cq.rd_seq ≤ seq
      → seq < cq.rd_seq + cq.slot_count
      → occupied cq seq ≡ true
      → seq ≢ (slot_of cq seq).buff.etcp_dat_hdr.seq_num
      → r ≡ (enoerr, cq)
      → Acks cq seq r
  in_order :
      (m : ℕ)
      → seq ≡ cq.rd_seq
      → occupied cq cq.rd_seq ≡ true
      → cq.rd_seq ≡ (slot_of cq cq.rd_seq).buff.etcp_dat_hdr.seq_num
      → cq.rd_seq < m
      → FirstFull (emptied cq (cq.rd_seq % cq.slot_count)) cq.rd_seq m
      → r ≡ (enoerr, rd_moved (emptied cq (cq.rd_seq % cq.slot_count)) m)
      → Acks cq seq r
  out_of_order :
      cq.rd_seq < seq
      → seq < cq.rd_seq + cq.slot_count
      → occupied cq seq ≡ true
      → seq ≡ (slot_of cq seq).buff.etcp_dat_hdr.seq_num
      → r ≡ (ecqerr, emptied cq (seq % cq.slot_count))
      → Acks cq seq r

-- A packet that is acknowledged: what the release makes of it.
acked :
    (cq : Cq PBuff) (seq : ℕ) {r : CqError × Cq PBuff}
    → cq.rd_seq ≤ seq
    → seq < cq.rd_seq + cq.slot_count
    → occupied cq seq ≡ true
    → seq ≡ (slot_of cq seq).buff.etcp_dat_hdr.seq_num
    → Releases cq (pos seq) r
    → Acks cq seq (released_code r.0, r.1)
acked cq seq lo hi full own (low h e) = absurd (omega arith)
acked cq seq lo hi full own (high k at h e) = absurd (ground arith)
acked cq seq lo hi full own (vacant k at free e) = absurd (ground (arith, at.number))
acked cq seq lo hi full own (waits k at h ne e) =
    let same : k ≡ seq = ground (arith, at.number) in
    let later : cq.rd_seq < seq = omega (arith, at.low) in
    rw (e, same) (out_of_order later hi full own refl)
acked cq seq lo hi full own (moves m at h gt f e) =
    let same : seq ≡ cq.rd_seq = ground (arith, at.number) in
    let first = subst (λ k. k ≡ (slot_of cq k).buff.etcp_dat_hdr.seq_num) same own in
    rw e (in_order m same h first gt f refl)

-- On a well-formed queue `etcpProcessAck` has one of these outcomes, for every number.
pub process_ack-Acks : (cq : Cq PBuff) (seq : ℕ) → IsValid cq → Acks cq seq (process_ack cq seq)
unfolding process_ack get_rd
process_ack-Acks cq seq v = elim (dec_lt seq cq.rd_seq) [
  | yes below ↦
      let test : ltb seq cq.rd_min ≡ true = ground (arith, v.shape.rd_min) in
      rw test (repeated below refl)
  | no above ↦
      let lo : cq.rd_seq ≤ seq = omega arith in
      let test : ltb seq cq.rd_min ≡ false = ground (arith, v.shape.rd_min) in
      rw test (elim (dec_lt seq (cq.rd_seq + cq.slot_count)) [
        | no far ↦ rw (get-above v.shape seq (omega arith)) (beyond (omega arith) refl)
        | yes hi ↦ rw (get-inside v.shape seq lo hi) (elim (Bool-cases (occupied cq seq)) [
          | inr free ↦ rw free (absent lo hi free refl)
          | inl full ↦ rw full (elim (ℕ_discrete seq (slot_of cq seq).buff.etcp_dat_hdr.seq_num) [
            | yes own ↦
                let mine = (==_iff seq (slot_of cq seq).buff.etcp_dat_hdr.seq_num).1 own in
                rw mine (acked cq seq lo hi full own (release_slot-Releases cq (pos seq) v))
            | no strange ↦
                let not_mine : (seq == (slot_of cq seq).buff.etcp_dat_hdr.seq_num) ≡ false =
                  ground arith in
                rw not_mine (other lo hi full strange refl)
          ])
        ])
      ])
]
