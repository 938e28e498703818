-- ===== src/NetTx.antt =====
-- `doEtcpNetTx` of src/etcp.c: what of a queue of packets goes out on the wire. The clock and the
-- network card are behind two callbacks that the library's user supplies: they are the parameters
-- `clock` and `eth_hw_tx`, on a state `W` of their own. A card's answer is its length or its
-- negative error, and a time stamp.
pub mod Turn
pub mod Ends
pub mod Handled
pub mod Quiet
use etcp.Base.{
  ℕ, zero, suc, ◌+◌, ◌%◌, ◌^◌, Bool, true, false, ◌&&◌, Option, none, some, ℤ, pos, ◌+ℤ◌, int_64,
  ltb_ℤ, ltb, ◌==◌, if◌then◌else◌, ok, err,
}
use etcp.CircularQueue.{Cq, ewrongslot}
use etcp.CircularQueue.Slots.{get_rd, release_slot, write_buff}
use etcp.Packet.{
  EtcpError, enoerr, ecqerr, etryagain, efatal, PBuff, MsgHead, Time, DatHdr, TxState, rdy, now,
  drp, etcp_dat, etcp_ack,
}

-- The time stamps that the sender sets, and the flags that say so.
abbrev pub sw_stamped : PBuff → ℕ → PBuff
sw_stamped p t = record p {
  etcp_hdr = record (p.etcp_hdr) {
    ts = record (p.etcp_hdr.ts) { sw_tx_time_ns = t };
    sw_tx_ts = true;
  };
}

abbrev pub hw_stamped : PBuff → ℕ → PBuff
hw_stamped p t = record p {
  etcp_hdr = record (p.etcp_hdr) {
    ts = record (p.etcp_hdr.ts) { hw_tx_time_ns = t };
    hw_tx_ts = true;
  };
}

-- `txAttempts++`, 16 bits.
abbrev pub attempted : PBuff → PBuff
attempted p = record p {
  etcp_dat_hdr = record (p.etcp_dat_hdr) {
    tx_attempts = (p.etcp_dat_hdr.tx_attempts + 1) % 2 ^ 16;
  };
}

-- The second `switch`, for a packet of a known type in slot `s` that is out: the queue after it.
abbrev pub settle : Cq PBuff → ℕ → ℕ → PBuff → ℕ → Cq PBuff
settle cq i s p hw_time =
    if p.etcp_hdr.type == etcp_dat
    then (let stamped = if p.etcp_dat_hdr.tx_attempts == 0 then hw_stamped p hw_time else p in
        let kept = write_buff cq s (attempted stamped) in
        if p.etcp_dat_hdr.no_ack then (release_slot kept (pos i)).1 else kept)
    else (release_slot (write_buff cq s p) (pos i)).1

module _ {W : Type 0} (clock : W → ℕ × W) (eth_hw_tx : W → PBuff → ℤ × ℕ × W) where
  -- The first `switch`: the packet with its time of sending, or nothing for an unknown type.
  abbrev pub stamp : PBuff → W → Option PBuff × W
  stamp p w =
      let (t, w_read) = clock w in
      if p.etcp_hdr.type == etcp_dat
      then (if p.etcp_dat_hdr.tx_attempts == 0
          then (some (sw_stamped p t), w_read)
          else (some p, w))
      else (if p.etcp_hdr.type == etcp_ack then (some (sw_stamped p t), w_read) else (none, w))

  -- The call of the card, for a packet `p` whose stamping gave the second packet or nothing.
  unfoldable pub send_out :
      Cq PBuff → ℕ → ℕ → PBuff → Option PBuff → W → Option EtcpError × Cq PBuff × W
  send_out cq i s p none w = (some efatal, write_buff cq s p, w)
  send_out cq i s p (some q) w =
      let (sent, hw_time, w_sent) = eth_hw_tx w q in
      if ltb_ℤ sent (pos 0)
      then (some etryagain, write_buff cq s q, w_sent)
      else (none, settle cq i s q hw_time, w_sent)

  -- What is done with the packet of number `i` in slot `s`, by its `txState`: dropped, sent, left.
  unfoldable pub act : Cq PBuff → ℕ → ℕ → TxState → W → Option EtcpError × Cq PBuff × W
  act cq i s drp w = (none, (release_slot cq (pos i)).1, w)
  act cq i s rdy w = (none, cq, w)
  act cq i s now w =
      let p = record ((cq.slots s).buff) { tx_state = rdy } in
      let (stamped, w_stamped) = stamp p w in send_out cq i s p stamped w_stamped

  -- One turn of the loop, at number `i`: an error that ends it, or none.
  unfoldable pub turn : Cq PBuff → ℕ → W → Option EtcpError × Cq PBuff × W
  turn cq i w = elim (get_rd cq (pos i)) [
    | err ewrongslot ↦ (none, cq, w)
    | err _ ↦ (some ecqerr, cq, w)
    | ok s ↦ act cq i s (cq.slots s).buff.tx_state w
  ]

  -- The loop from number `i` on, with `rdMin` and `rdMax` read again at every turn, on fuel. The
  -- sum of the limit has 64 bits, and wraps around to a negative number where it leaves them.
  unfoldable pub send_loop : ℕ → Cq PBuff → ℕ → ℤ → W → Option (EtcpError × Cq PBuff × W)
  send_loop zero cq i max_slots w = none
  send_loop (suc fuel) cq i max_slots w =
      let (stop, after, w_after) = turn cq i w in
      let rest = send_loop fuel after (i + 1) max_slots w_after in
      if ltb i cq.rd_max && ltb_ℤ (pos i) (int_64 (pos cq.rd_min +ℤ max_slots))
      then elim stop [ none ↦ rest | some e ↦ some (e, after, w_after) ]
      else some (enoerr, cq, w)

  -- `doEtcpNetTx`.
  unfoldable pub do_etcp_net_tx : ℕ → Cq PBuff → ℤ → W → Option (EtcpError × Cq PBuff × W)
  do_etcp_net_tx fuel cq max_slots w = send_loop fuel cq cq.rd_min max_slots w
