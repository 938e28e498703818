-- ===== src/NetTx/Turn.antt =====
-- What a turn of the loop of `doEtcpNetTx` in src/etcp.c keeps of the queue.
use etcp.Base.{
  ℕ, ◌+◌, ◌≤◌, ◌≡◌, ◌⊎◌, inl, inr, refl, Bool, true, false, Option, none, some, pos, arith,
  Result-cases, ltb_ℤ, ◌==◌, if◌then◌else◌, ℤ,
}
use etcp.CircularQueue.{Cq, CqError}
use etcp.CircularQueue.Slots.{get_rd, release_slot, write_buff}
use etcp.CircularQueue.Window.{IsValid}
use etcp.CircularQueue.Outcomes.{Releases, low, high, vacant, waits, moves, release_slot-Releases}
use etcp.CircularQueue.Invariant.{release_slot-IsValid, write_buff-IsValid}
use etcp.Packet.{EtcpError, PBuff, TxState, rdy, now, drp, etcp_dat}
use etcp.NetTx.{turn, act, send_out, settle, stamp, attempted, hw_stamped}

-- A queue and a later state of it, with as much left to send, or less: the same write numbers, and
-- a read limit that is the old one or the one after the write number.
pub record Keeps (cq after : Cq PBuff) : Type 0 where
  pub valid : IsValid after
  pub wr_min : after.wr_min ≡ cq.wr_min
  pub wr_seq : after.wr_seq ≡ cq.wr_seq
  pub rd_seq : cq.rd_seq ≤ after.rd_seq
  pub rd_max : (after.rd_max ≡ cq.rd_max) ⊎ (after.rd_max ≡ cq.wr_min + 1)

pub Keeps-refl : (cq : Cq PBuff) → IsValid cq → Keeps cq cq
Keeps-refl cq v = record {
  valid = v;
  wr_min = refl;
  wr_seq = refl;
  rd_seq = omega arith;
  rd_max = inl refl;
}

pub Keeps-trans : {a b c : Cq PBuff} → Keeps a b → Keeps b c → Keeps a c
Keeps-trans k l = record {
  valid = l.valid;
  wr_min = omega (arith, k.wr_min, l.wr_min);
  wr_seq = omega (arith, k.wr_seq, l.wr_seq);
  rd_seq = omega (arith, k.rd_seq, l.rd_seq);
  rd_max = ground (arith, k.rd_max, l.rd_max, k.wr_min);
}

pub write_buff-Keeps :
    (cq : Cq PBuff) (s : ℕ) (p : PBuff) → IsValid cq → Keeps cq (write_buff cq s p)
write_buff-Keeps cq s p v = record {
  valid = write_buff-IsValid cq s p v;
  wr_min = refl;
  wr_seq = refl;
  rd_seq = omega arith;
  rd_max = inl refl;
}

released :
    (cq : Cq PBuff) (n : ℤ) {r : CqError × Cq PBuff}
    → Releases cq n r
    → (r.1.wr_min ≡ cq.wr_min)
      × (r.1.wr_seq ≡ cq.wr_seq)
      × (cq.rd_seq ≤ r.1.rd_seq)
      × ((r.1.rd_max ≡ cq.rd_max) ⊎ (r.1.rd_max ≡ cq.wr_min + 1))
released cq n (low h e) = rw e (refl, refl, omega arith, inl refl)
released cq n (high k at h e) = rw e (refl, refl, omega arith, inl refl)
released cq n (vacant k at h e) = rw e (refl, refl, omega arith, inl refl)
released cq n (waits k at h ne e) = rw e (refl, refl, omega arith, inl refl)
released cq n (moves m at h gt f e) = rw e (refl, refl, omega arith, inr refl)

pub release_slot-Keeps : (cq : Cq PBuff) (n : ℤ) → IsValid cq → Keeps cq (release_slot cq n).1
release_slot-Keeps cq n v =
    let (same_min, same_seq, ahead, limit) = released cq n (release_slot-Releases cq n v) in
    record {
      valid = release_slot-IsValid cq n v;
      wr_min = same_min;
      wr_seq = same_seq;
      rd_seq = ahead;
      rd_max = limit;
    }

if-Keeps : (b : Bool) (cq x y : Cq PBuff) → Keeps cq x → Keeps cq y → Keeps cq (if b then x else y)
if-Keeps true cq x y kx ky = kx
if-Keeps false cq x y kx ky = ky

settle-Keeps :
    (cq : Cq PBuff) (i s : ℕ) (p : PBuff) (t : ℕ) → IsValid cq → Keeps cq (settle cq i s p t)
settle-Keeps cq i s p t v =
    let stamped = if p.etcp_dat_hdr.tx_attempts == 0 then hw_stamped p t else p in
    let kept = write_buff-Keeps cq s (attempted stamped) v in
    let bare = write_buff-Keeps cq s p v in
    if-Keeps (p.etcp_hdr.type == etcp_dat) cq _ _
      (if-Keeps p.etcp_dat_hdr.no_ack cq _ _
        (Keeps-trans kept
          (release_slot-Keeps (write_buff cq s (attempted stamped)) (pos i) kept.valid))
        kept)
      (Keeps-trans bare (release_slot-Keeps (write_buff cq s p) (pos i) bare.valid))

module _ {W : Type 0} (clock : W → ℕ × W) (eth_hw_tx : W → PBuff → ℤ × ℕ × W) where
  -- The first queue or the second is what an answer holds.
  answer-Keeps :
      (b : Bool) (cq : Cq PBuff) (x y : Option EtcpError × Cq PBuff × W)
      → Keeps cq x.1
      → Keeps cq y.1
      → Keeps cq (if b then x else y).1
  answer-Keeps true cq x y kx ky = kx
  answer-Keeps false cq x y kx ky = ky

  send_out-Keeps :
      (cq : Cq PBuff) (i s : ℕ) (p : PBuff) (stamped : Option PBuff) (w : W)
      → IsValid cq
      → Keeps cq (send_out clock eth_hw_tx cq i s p stamped w).1
  unfolding send_out
  send_out-Keeps cq i s p none w v = write_buff-Keeps cq s p v
  send_out-Keeps cq i s p (some q) w v =
      let (sent, hw_time, w_sent) = eth_hw_tx w q in
      answer-Keeps (ltb_ℤ sent (pos 0)) cq _ _ (write_buff-Keeps cq s q v)
        (settle-Keeps cq i s q hw_time v)

  act-Keeps :
      (cq : Cq PBuff) (i s : ℕ) (state : TxState) (w : W)
      → IsValid cq
      → Keeps cq (act clock eth_hw_tx cq i s state w).1
  unfolding act
  act-Keeps cq i s drp w v = release_slot-Keeps cq (pos i) v
  act-Keeps cq i s rdy w v = Keeps-refl cq v
  act-Keeps cq i s now w v =
      let p = record ((cq.slots s).buff) { tx_state = rdy } in
      let (stamped, w_stamped) = stamp clock eth_hw_tx p w in
      send_out-Keeps cq i s p stamped w_stamped v

  pub turn-Keeps :
      (cq : Cq PBuff) (i : ℕ) (w : W) → IsValid cq → Keeps cq (turn clock eth_hw_tx cq i w).1
  unfolding turn
  turn-Keeps cq i w v = elim (Result-cases (get_rd cq (pos i))) [
    | inl (s, found) ↦ rw (found, turn) (act-Keeps cq i s (cq.slots s).buff.tx_state w v)
    | inr (e, missing) ↦ rw (missing, turn) (ground (arith, Keeps-refl cq v))
  ]
