-- ===== src/NetTx/Ends.antt =====
-- How `doEtcpNetTx` of src/etcp.c ends, and what it leaves.
use etcp.Base.{
  ℕ, zero, suc, ◌+◌, ◌≤◌, ◌<◌, ◌≡◌, inl, inr, refl, Bool, true, false, ◌&&◌, Option, none, some,
  pos, arith, Bool-cases, ltb, ltb_ℤ, ℤ, ◌+ℤ◌, ◌≤ℤ◌, ◌∙◌, ap, ◌^◌, pos_part, int_64, int_64-sum,
}
use etcp.CircularQueue.{Cq}
use etcp.CircularQueue.Slots.{get_rd, release_slot}
use etcp.CircularQueue.Window.{
  IsValid, occupied, slot_of, get-inside, get-below, mod-ne, slot_count_pos,
}
use etcp.CircularQueue.Outcomes.{release_moves, release_slot-Releases}
use etcp.CircularQueue.Invariant.{release_slot-IsValid}
use etcp.Packet.{EtcpError, enoerr, ecqerr, PBuff, rdy, drp}
use etcp.NetTx.{turn, act, send_loop, do_etcp_net_tx}
use etcp.NetTx.Turn.{Keeps, Keeps-refl, Keeps-trans, turn-Keeps}

module _ {W : Type 0} (clock : W → ℕ × W) (eth_hw_tx : W → PBuff → ℤ × ℕ × W) where
  -- The test of the loop.
  abbrev pub goes_on : Cq PBuff → ℕ → ℤ → Bool
  goes_on cq i max_slots = ltb i cq.rd_max && ltb_ℤ (pos i) (int_64 (pos cq.rd_min +ℤ max_slots))

  goes_on-below : (cq : Cq PBuff) (i : ℕ) (m : ℤ) → goes_on cq i m ≡ true → i < cq.rd_max
  goes_on-below cq i m h = ground arith

  -- The loop has an answer, with a later state of the queue.
  abbrev Answers : Cq PBuff → Option (EtcpError × Cq PBuff × W) → Type 0
  Answers cq result = (r : EtcpError × Cq PBuff × W) × (result ≡ some r) × Keeps cq r.1

  stop-Answers :
      (cq after : Cq PBuff) (stop : Option EtcpError) (w : W)
      (rest : Option (EtcpError × Cq PBuff × W))
      → Keeps cq after
      → Answers after rest
      → Answers cq (elim stop [ none ↦ rest | some e ↦ some (e, after, w) ])
  stop-Answers cq after none w rest kept (r, run, later) = (r, run, Keeps-trans kept later)
  stop-Answers cq after (some e) w rest kept later = ((e, after, w), refl, kept)

  send_loop-Answers :
      (fuel : ℕ) (cq : Cq PBuff) (i : ℕ) (max_slots : ℤ) (w : W)
      → IsValid cq
      → cq.wr_seq + 2 ≤ suc fuel + i
      → Answers cq (send_loop clock eth_hw_tx (suc fuel) cq i max_slots w)
  unfolding send_loop
  send_loop-Answers zero cq i max_slots w v enough =
      let stops : goes_on cq i max_slots ≡ false = ground (arith, v.shape.rd_max) in
      rw stops ((enoerr, cq, w), refl, Keeps-refl cq v)
  send_loop-Answers (suc fuel) cq i max_slots w v enough =
      let (stop, after, w_after) = turn clock eth_hw_tx cq i w in
      let kept = turn-Keeps clock eth_hw_tx cq i w v in
      let later =
        send_loop-Answers fuel after (i + 1) max_slots w_after kept.valid
          (omega (arith, kept.wr_seq)) in
      elim (Bool-cases (goes_on cq i max_slots)) [
        | inr stops ↦ rw stops ((enoerr, cq, w), refl, Keeps-refl cq v)
        | inl goes ↦ rw goes (stop-Answers cq after stop w_after _ kept later)
      ]

  -- On a well-formed queue the loop of `doEtcpNetTx` ends, with fuel for two turns more than there
  -- are numbers from the read number to the write number, and leaves a well-formed queue whose
  -- write number is the same and whose read number is not lower.
  pub do_etcp_net_tx-ends :
      (fuel : ℕ) (cq : Cq PBuff) (max_slots : ℤ) (w : W)
      → IsValid cq
      → cq.wr_seq + 2 ≤ fuel + cq.rd_seq
      → (r : EtcpError × Cq PBuff × W) × (do_etcp_net_tx clock eth_hw_tx fuel cq max_slots w
          ≡ some r)
        × IsValid r.1
        × (r.1.wr_seq ≡ cq.wr_seq)
        × (cq.rd_seq ≤ r.1.rd_seq)
  unfolding do_etcp_net_tx
  do_etcp_net_tx-ends zero cq max_slots w v enough = absurd (omega (arith, v.shape.ordered))
  do_etcp_net_tx-ends (suc fuel) cq max_slots w v enough =
      let (r, run, kept) =
        send_loop-Answers fuel cq cq.rd_min max_slots w v (omega (arith, v.shape.rd_min)) in
      (r, run, kept.valid, kept.wr_seq, kept.rd_seq)

  -- A packet that waits is passed over, and so is a free slot.
  turn-idle :
      (cq : Cq PBuff) (i : ℕ) (w : W)
      → IsValid cq
      → cq.rd_seq ≤ i
      → i < cq.rd_seq + cq.slot_count
      → (occupied cq i ≡ true → (slot_of cq i).buff.tx_state ≡ rdy)
      → turn clock eth_hw_tx cq i w ≡ (none, cq, w)
  unfolding turn act get_rd
  turn-idle cq i w v lo hi waiting =
      let found = get-inside v.shape i lo hi in
      elim (Bool-cases (occupied cq i)) [
        | inl full ↦ rw (found, turn) (rw (full, turn) (rw (waiting full, turn) refl))
        | inr free ↦ rw (found, turn) (rw (free, turn) refl)
      ]

  -- Every packet of the window waits for its acknowledgement or for the user.
  abbrev pub AllWait : Cq PBuff → Type 0
  AllWait cq =
      (n : ℕ)
      → cq.rd_seq ≤ n
      → n < cq.rd_max
      → occupied cq n ≡ true
      → (slot_of cq n).buff.tx_state ≡ rdy

  -- The answer of the loop after a turn.
  abbrev pub after_turn :
      ℕ → ℕ → ℤ → Option EtcpError × Cq PBuff × W → Option (EtcpError × Cq PBuff × W)
  after_turn fuel i max_slots r = elim r.0 [
    | none ↦ send_loop clock eth_hw_tx fuel r.1 (i + 1) max_slots r.2
    | some e ↦ some (e, r.1, r.2)
  ]

  pub send_loop-turn :
      (fuel : ℕ) (cq : Cq PBuff) (i : ℕ) (max_slots : ℤ) (w : W)
      {r : Option EtcpError × Cq PBuff × W}
      → goes_on cq i max_slots ≡ true
      → turn clock eth_hw_tx cq i w ≡ r
      → send_loop clock eth_hw_tx (suc fuel) cq i max_slots w ≡ after_turn fuel i max_slots r
  unfolding send_loop
  send_loop-turn fuel cq i max_slots w goes run = rw goes (ap (after_turn fuel i max_slots) run)

  send_loop-idle :
      (fuel : ℕ) (cq : Cq PBuff) (i : ℕ) (max_slots : ℤ) (w : W)
      → IsValid cq
      → cq.rd_seq ≤ i
      → cq.rd_max ≤ cq.rd_seq + cq.slot_count
      → cq.wr_seq + 2 ≤ suc fuel + i
      → AllWait cq
      → send_loop clock eth_hw_tx (suc fuel) cq i max_slots w ≡ some (enoerr, cq, w)
  unfolding send_loop
  send_loop-idle zero cq i max_slots w v lo inside enough wait =
      let stops : goes_on cq i max_slots ≡ false = ground (arith, v.shape.rd_max) in rw stops refl
  send_loop-idle (suc fuel) cq i max_slots w v lo inside enough wait =
      elim (Bool-cases (goes_on cq i max_slots)) [
        | inr stops ↦ rw stops refl
        | inl goes ↦
            let below = goes_on-below cq i max_slots goes in
            let idle = turn-idle cq i w v lo (omega arith) (wait i lo below) in
            let rest =
              send_loop-idle fuel cq (i + 1) max_slots w v (omega arith) inside (omega arith)
                wait in
            send_loop-turn (suc fuel) cq i max_slots w goes idle ∙ rest
      ]

  -- Where every packet of a well-formed queue waits, and its read limit is in the window,
  -- `doEtcpNetTx` with fuel for two turns more than there are numbers succeeds, sends nothing and
  -- changes nothing.
  do_etcp_net_tx-idle :
      (fuel : ℕ) (cq : Cq PBuff) (max_slots : ℤ) (w : W)
      → IsValid cq
      → cq.rd_max ≤ cq.rd_seq + cq.slot_count
      → cq.wr_seq + 2 ≤ fuel + cq.rd_seq
      → AllWait cq
      → do_etcp_net_tx clock eth_hw_tx fuel cq max_slots w ≡ some (enoerr, cq, w)
  unfolding do_etcp_net_tx
  do_etcp_net_tx-idle zero cq max_slots w v inside enough wait =
      absurd (omega (arith, v.shape.ordered))
  do_etcp_net_tx-idle (suc fuel) cq max_slots w v inside enough wait =
      send_loop-idle fuel cq cq.rd_min max_slots w v (omega (arith, v.shape.rd_min)) inside
        (omega (arith, v.shape.rd_min)) wait

  goes_on_if :
      (cq : Cq PBuff) (i : ℕ) (m : ℤ)
      → i < cq.rd_max
      → i ≤ cq.rd_min
      → pos 1 ≤ℤ m
      → cq.rd_min + pos_part m < 2 ^ 63
      → goes_on cq i m ≡ true
  goes_on_if cq i m below from some_slots small =
      rw (int_64-sum cq.rd_min m some_slots small) (ground arith)

  turn-drop :
      (cq : Cq PBuff) (w : W)
      → IsValid cq
      → occupied cq cq.rd_seq ≡ true
      → (slot_of cq cq.rd_seq).buff.tx_state ≡ drp
      → turn clock eth_hw_tx cq cq.rd_seq w ≡ (none, (release_slot cq (pos cq.rd_seq)).1, w)
  unfolding turn act get_rd
  turn-drop cq w v full drop =
      let found =
        get-inside v.shape cq.rd_seq (omega arith) (omega (arith, slot_count_pos v.shape)) in
      rw (found, turn) (rw (full, turn) (rw (drop, turn) refl))

  turn-below :
      (cq : Cq PBuff) (i : ℕ) (w : W)
      → IsValid cq
      → i < cq.rd_seq
      → turn clock eth_hw_tx cq i w ≡ (some ecqerr, cq, w)
  unfolding turn get_rd
  turn-below cq i w v below =
      let lost = get-below v.shape (pos i) (omega arith) in rw (lost, turn) refl

  -- In a well-formed queue, where the first packet is to be dropped, the next number is below the
  -- write number but its packet is gone already, one slot at least may be looked at, and the write
  -- number and the limit together stay below 2 ^ 63, the
  -- release moves the read number past the loop's next number: `doEtcpNetTx`, with fuel for two
  -- turns or more, answers etcpECQERR and sends nothing.
  pub do_etcp_net_tx-skips :
      (fuel : ℕ) (cq : Cq PBuff) (max_slots : ℤ) (w : W)
      → IsValid cq
      → cq.rd_seq + 1 < cq.wr_seq
      → (slot_of cq cq.rd_seq).buff.tx_state ≡ drp
      → occupied cq (cq.rd_seq + 1) ≡ false
      → pos 1 ≤ℤ max_slots
      → cq.wr_seq + pos_part max_slots < 2 ^ 63
      → do_etcp_net_tx clock eth_hw_tx (suc (suc fuel)) cq max_slots w
        ≡ some (ecqerr, (release_slot cq (pos cq.rd_seq)).1, w)
  unfolding do_etcp_net_tx
  do_etcp_net_tx-skips fuel cq max_slots w v more drop gone some_slots small =
      let full = v.head (omega arith) in
      let (m, gt, f, run) =
        release_moves cq (slot_count_pos v.shape) full
          (release_slot-Releases cq (pos cq.rd_seq) v) in
      let after = (release_slot cq (pos cq.rd_seq)).1 in
      let apart =
        mod-ne cq.slot_count cq.rd_seq (cq.rd_seq + 1) (omega arith)
          (omega (arith, v.shape.bounded)) in
      let past : cq.rd_seq + 2 ≤ m = ground (arith, f.stopped) in
      let dropped : turn clock eth_hw_tx cq cq.rd_seq w ≡ (none, after, w) =
        turn-drop cq w v full drop in
      let goes : goes_on cq cq.rd_seq max_slots ≡ true =
        goes_on_if cq cq.rd_seq max_slots (ground (arith, v.shape.rd_max))
          (omega (arith, v.shape.rd_min)) some_slots (omega (arith, v.shape.rd_min)) in
      let limit : after.rd_max ≡ cq.wr_min + 1 = ap (λ r. r.1.rd_max) run in
      let start : after.rd_min ≡ m = ap (λ r. r.1.rd_min) run in
      let read : after.rd_seq ≡ m = ap (λ r. r.1.rd_seq) run in
      let goes_again : goes_on after (cq.rd_seq + 1) max_slots ≡ true =
        goes_on_if after (cq.rd_seq + 1) max_slots (omega (arith, v.shape.wr_min)) (omega arith)
          some_slots (omega (arith, f.upto)) in
      let lost : turn clock eth_hw_tx after (cq.rd_seq + 1) w ≡ (some ecqerr, after, w) =
        turn-below after (cq.rd_seq + 1) w (release_slot-IsValid cq (pos cq.rd_seq) v)
          (omega arith) in
      ap (λ i. send_loop clock eth_hw_tx (suc (suc fuel)) cq i max_slots w) v.shape.rd_min
      ∙ (send_loop-turn (suc fuel) cq cq.rd_seq max_slots w goes dropped
          ∙ send_loop-turn fuel after (cq.rd_seq + 1) max_slots w goes_again lost)
