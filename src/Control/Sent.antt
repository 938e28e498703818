-- ===== src/Control/Sent.antt =====
-- A packet from the send queue to the card: `etcpTxTc` of src/test.c marks it, and `doEtcpNetTx` of
-- src/etcp.c sends it.
use etcp.Base.{
  ℕ, suc, ◌+◌, ◌-◌, ◌%◌, ◌≡◌, refl, ap, ◌∙◌, Bool, true, false, ◌&&◌, Option, none, some, ℤ, pos,
  int_64-sum, ◌<◌, ◌^◌, ltb_ℤ, arith, ok,
}
use etcp.CircularQueue.{Cq, Slot}
use etcp.CircularQueue.Slots.{get_rd, write_buff}
use etcp.CircularQueue.Window.{IsValid, slot_of, slot_count_pos}
use etcp.CircularQueue.Copy.{write_buff-slot}
use etcp.CircularQueue.Invariant.{write_buff-IsValid}
use etcp.Packet.{EtcpError, enoerr, PBuff, rdy, now, etcp_dat}
use etcp.Sack.Walk.{get_rd_full}
use etcp.NetTx.Ends.{goes_on, send_loop-turn}
use etcp.NetTx.{
  sw_stamped, hw_stamped, attempted, stamp, send_out, act, turn, send_loop, do_etcp_net_tx,
}
use etcp.Api.Send.{Queues}
use etcp.Control.{mark, mark_dats, ack_limit, dat_limit, etcp_tx_tc}

-- A queue whose only packet is `p`, of `len` bytes.
pub record Only (cq : Cq PBuff) (p : PBuff) (len : ℕ) : Type 0 where
  pub valid : IsValid cq
  pub rd_max : cq.rd_max ≡ cq.rd_seq + 1
  pub slot : slot_of cq cq.rd_seq ≡ record { len = len; buff = p; valid = true }

abbrev pub first : Cq PBuff → ℕ
first cq = cq.rd_seq % cq.slot_count

Only-get_rd :
    (cq : Cq PBuff) (p : PBuff) (len : ℕ)
    → Only cq p len
    → get_rd cq (pos cq.rd_seq) ≡ ok (first cq)
Only-get_rd cq p len o =
    get_rd_full cq cq.rd_seq o.valid (omega arith) (omega (arith, slot_count_pos o.valid.shape))
      (ap (λ t. t.valid) o.slot)

-- What the mark makes of the queue.
pub mark-Only :
    (cq : Cq PBuff) (p : PBuff) (len : ℕ)
    → Only cq p len
    → Only (mark cq (first cq)) (record p { tx_state = now }) len
mark-Only cq p len o =
    let q = record ((slot_of cq cq.rd_seq).buff) { tx_state = now } in
    record {
      valid = write_buff-IsValid cq (first cq) q o.valid;
      rd_max = o.rd_max;
      slot =
          write_buff-slot cq cq.rd_seq q
          ∙ ap (λ (t : Slot PBuff). record t { buff = record (t.buff) { tx_state = now } }) o.slot;
    }

and_false : (b : Bool) → b && false ≡ false
and_false true = refl
and_false false = refl

mark_dats-Only :
    (cq : Cq PBuff) (p : PBuff) (len time_now : ℕ)
    → Only cq p len
    → p.tx_state ≡ rdy
    → p.etcp_dat_hdr.tx_attempts ≡ 0
    → mark_dats 1 cq cq.rd_seq time_now ≡ some (mark cq (first cq), cq.rd_seq + 1)
unfolding mark_dats
mark_dats-Only cq p len time_now o waits new =
    let state : (cq.slots (first cq)).buff.tx_state ≡ rdy =
      ap (λ t. t.buff.tx_state) o.slot ∙ waits in
    let attempts : (cq.slots (first cq)).buff.etcp_dat_hdr.tx_attempts ≡ 0 =
      ap (λ t. t.buff.etcp_dat_hdr.tx_attempts) o.slot ∙ new in
    rw (Only-get_rd cq p len o, mark_dats) (rw (state) (simp (attempts, and_false) refl))

module _ {W : Type 0} (clock : W → ℕ × W) where
  -- `etcpTxTc` for such a queue, and no queue for acknowledgements.
  pub etcp_tx_tc-Only :
      (w : W) (q : Queues) (cq : Cq PBuff) (p : PBuff) (len : ℕ)
      → q.send_tx_q ≡ some cq
      → q.recv_tx_q ≡ none
      → Only cq p len
      → p.tx_state ≡ rdy
      → p.etcp_dat_hdr.tx_attempts ≡ 0
      → etcp_tx_tc clock w q
        ≡ some (
          record {
            ack_first = true;
            max_ack = pos 0;
            max_dat = pos 1;
            queues = record q { send_tx_q = some (mark cq (first cq)); recv_tx_q = none };
          },
          (clock w).1,
        )
  unfolding etcp_tx_tc ack_limit dat_limit
  etcp_tx_tc-Only w q cq p len sending acks o waits new =
      let min = o.valid.shape.rd_min in
      let one : cq.rd_max - cq.rd_min ≡ 1 = omega (arith, o.rd_max, min) in
      let one_more : cq.rd_seq + 1 - cq.rd_min ≡ 1 = omega (arith, min) in
      let marked : mark_dats (cq.rd_max - cq.rd_min) cq cq.rd_min (clock w).0
          ≡ some (mark cq (first cq), cq.rd_seq + 1) =
        ap (λ k. mark_dats k cq cq.rd_min (clock w).0) one
        ∙ ap (λ i. mark_dats 1 cq i (clock w).0) min
        ∙ mark_dats-Only cq p len (clock w).0 o waits new in
      simp (sending, acks, marked, one_more) refl

  module _ (eth_hw_tx : W → PBuff → ℤ × ℕ × W) where
    -- The packet that the card is given, and its answer.
    abbrev pub given : PBuff → W → PBuff
    given p w = sw_stamped (record p { tx_state = rdy }) (clock w).0

    abbrev pub answer : PBuff → W → ℤ × ℕ × W
    answer p w = eth_hw_tx (clock w).1 (given p w)

    -- The queue once the packet is out.
    abbrev pub out : Cq PBuff → PBuff → W → Cq PBuff
    out cq p w = write_buff cq (first cq) (attempted (hw_stamped (given p w) (answer p w).1))

    -- A packet handed to the card.
    abbrev handed : Cq PBuff → ℕ → ℕ → PBuff → W → Option EtcpError × Cq PBuff × W
    handed cq i s q w =
        send_out clock eth_hw_tx cq i s q (stamp clock eth_hw_tx q w).0
          (stamp clock eth_hw_tx q w).1

    stamp-first :
        (q : PBuff) (w : W)
        → q.etcp_hdr.type ≡ etcp_dat
        → q.etcp_dat_hdr.tx_attempts ≡ 0
        → stamp clock eth_hw_tx q w ≡ (some (sw_stamped q (clock w).0), (clock w).1)
    stamp-first q w dat new = rw (dat) (rw (new) refl)

    send_out-sent :
        (cq : Cq PBuff) (i s : ℕ) (p q : PBuff) (w : W)
        → q.etcp_hdr.type ≡ etcp_dat
        → q.etcp_dat_hdr.tx_attempts ≡ 0
        → q.etcp_dat_hdr.no_ack ≡ false
        → ltb_ℤ (eth_hw_tx w q).0 (pos 0) ≡ false
        → send_out clock eth_hw_tx cq i s p (some q) w
          ≡ (none, write_buff cq s (attempted (hw_stamped q (eth_hw_tx w q).1)), (eth_hw_tx w q).2)
    unfolding send_out
    send_out-sent cq i s p q w dat new acked sent =
        rw (sent, send_out) (rw (dat) (rw (new) (rw (acked) refl)))

    turn-Only :
        (cq : Cq PBuff) (p : PBuff) (len : ℕ) (w : W)
        → Only cq p len
        → p.tx_state ≡ now
        → p.etcp_hdr.type ≡ etcp_dat
        → p.etcp_dat_hdr.tx_attempts ≡ 0
        → p.etcp_dat_hdr.no_ack ≡ false
        → ltb_ℤ (answer p w).0 (pos 0) ≡ false
        → turn clock eth_hw_tx cq cq.rd_seq w ≡ (none, out cq p w, (answer p w).2)
    unfolding turn act
    turn-Only cq p len w o goes dat new acked sent =
        let i = cq.rd_seq in
        let s = first cq in
        let buff : (cq.slots s).buff ≡ p = ap (λ t. t.buff) o.slot in
        let acts : turn clock eth_hw_tx cq i w
            ≡ act clock eth_hw_tx cq i s (cq.slots s).buff.tx_state w =
          rw (Only-get_rd cq p len o, turn) refl in
        acts
        ∙ ap (λ state. act clock eth_hw_tx cq i s state w) (ap (λ b. b.tx_state) buff ∙ goes)
        ∙ ap (λ b. handed cq i s (record b { tx_state = rdy }) w) buff
        ∙ ap (λ r. send_out clock eth_hw_tx cq i s (record p { tx_state = rdy }) r.0 r.1)
            (stamp-first (record p { tx_state = rdy }) w dat new)
        ∙ send_out-sent cq i s (record p { tx_state = rdy }) (given p w) (clock w).1 dat new acked
            sent

    pub do_etcp_net_tx-Only :
        (fuel : ℕ) (cq : Cq PBuff) (p : PBuff) (len : ℕ) (w : W)
        → Only cq p len
        → cq.rd_seq + 1 < 2 ^ 63
        → p.tx_state ≡ now
        → p.etcp_hdr.type ≡ etcp_dat
        → p.etcp_dat_hdr.tx_attempts ≡ 0
        → p.etcp_dat_hdr.no_ack ≡ false
        → ltb_ℤ (answer p w).0 (pos 0) ≡ false
        → do_etcp_net_tx clock eth_hw_tx (suc (suc fuel)) cq (pos 1) w
          ≡ some (enoerr, out cq p w, (answer p w).2)
    unfolding do_etcp_net_tx send_loop
    do_etcp_net_tx-Only fuel cq p len w o small goes dat new acked sent =
        let min = o.valid.shape.rd_min in
        let on : goes_on clock eth_hw_tx cq cq.rd_seq (pos 1) ≡ true =
          rw (int_64-sum cq.rd_min (pos 1) (omega arith) (omega (arith, min)))
            (ground (arith, o.rd_max, min)) in
        let off : goes_on clock eth_hw_tx (out cq p w) (cq.rd_seq + 1) (pos 1) ≡ false =
          ground (arith, o.rd_max) in
        ap (λ i. send_loop clock eth_hw_tx (suc (suc fuel)) cq i (pos 1) w) min
        ∙ send_loop-turn clock eth_hw_tx (suc fuel) cq cq.rd_seq (pos 1) w on
            (turn-Only cq p len w o goes dat new acked sent)
        ∙ rw off refl
