-- ===== src/Ack.antt =====
-- `etcpProcessAck` of src/etcp.c: one acknowledged sequence number, against the queue of sent
-- packets. The time stamps that the function is given only go to the log.
pub mod Outcomes
use etcp.Base.{ℕ, pos, ltb, ◌==◌, if◌then◌else◌, ok, err}
use etcp.CircularQueue.{Cq}
use etcp.CircularQueue.Slots.{get_rd, release_slot}
use etcp.Packet.{EtcpError, enoerr, ecqerr, PBuff}
use etcp.UserRx.{released_code}

-- `etcpProcessAck`.
unfoldable pub process_ack : Cq PBuff → ℕ → EtcpError × Cq PBuff
process_ack cq seq = if ltb seq cq.rd_min then (enoerr, cq) else elim (get_rd cq (pos seq)) [
  | err _ ↦ (ecqerr, cq)
  | ok s ↦
      let (code, after) = release_slot cq (pos seq) in
      if seq == (cq.slots s).buff.etcp_dat_hdr.seq_num
      then (released_code code, after)
      else (enoerr, cq)
]
