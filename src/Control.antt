-- ===== src/Control.antt =====
-- The transmission control of src/test.c, the callbacks that its program gives to the library:
-- `etcpRxTc`, which sets no limits, and `etcpTxTc`, which marks the packets that are to go out.
-- The clock is a parameter. The loops go from `rdMin` to `rdMax`, which they do not move, so their
-- turns are counted beforehand. A packet that was sent more than ten times in vain ends the process:
-- the callback then has no answer.
pub mod Programs
pub mod Sent
pub mod Call
use etcp.Base.{
  ℕ, zero, suc, ◌+◌, ◌-◌, ◌*◌, Bool, true, false, Option, none, some, ℤ, pos, negsuc, ltb, ◌==◌,
  ◌||◌, ◌&&◌, if◌then◌else◌, ok, err, ◌>>=◌,
}
use etcp.CircularQueue.{Cq}
use etcp.CircularQueue.Slots.{get_rd, write_buff}
use etcp.LinkedList.{Ll}
use etcp.Packet.{PBuff, TxState, rdy, now}
use etcp.Api.Send.{Queues, TxTc}
use etcp.Api.Recv.{RxTc}

-- `etcpRxTc`.
unfoldable pub etcp_rx_tc {ℓ} : {W : Type ℓ} → W → Cq PBuff → Ll PBuff → Cq PBuff → RxTc × W
etcp_rx_tc w dat_rx_q dat_stale_q ack_tx_q = (
  record {
    max_ack_slots = negsuc 0;
    max_ack_pkts = negsuc 0;
    max_stale_slots = negsuc 0;
    max_stale_ack_pkts = negsuc 0;
  },
  w,
)

-- `txState == ETCP_TX_RDY`, and `txState = ETCP_TX_NOW` in slot `s`.
abbrev pub is_rdy : TxState → Bool
is_rdy rdy = true
is_rdy _ = false

abbrev pub mark : Cq PBuff → ℕ → Cq PBuff
mark cq s = write_buff cq s (record ((cq.slots s).buff) { tx_state = now })

-- The loop over acknowledgements from number `i` on: the queue, and the number where it ends.
unfoldable pub mark_acks : ℕ → Cq PBuff → ℕ → Cq PBuff × ℕ
mark_acks zero cq i = (cq, i)
mark_acks (suc left) cq i = elim (get_rd cq (pos i)) [
  | err _ ↦ (cq, i)
  | ok s ↦ mark_acks left (if is_rdy (cq.slots s).buff.tx_state then mark cq s else cq) (i + 1)
]

-- `retransmitTimeOut`, in nanoseconds.
abbrev pub retransmit_time_out : ℕ
retransmit_time_out = 1000 * 1000

-- A packet that waits and was sent before is due again when its time is over.
abbrev pub is_due : PBuff → ℕ → Bool
is_due p time_now =
    let attempts = p.etcp_dat_hdr.tx_attempts in
    ltb (p.etcp_hdr.ts.sw_tx_time_ns + attempts * retransmit_time_out) time_now

-- The loop over data from number `i` on, at a time.
unfoldable pub mark_dats : ℕ → Cq PBuff → ℕ → ℕ → Option (Cq PBuff × ℕ)
mark_dats zero cq i time_now = some (cq, i)
mark_dats (suc left) cq i time_now = elim (get_rd cq (pos i)) [
  | err _ ↦ some (cq, i)
  | ok s ↦
      let p = (cq.slots s).buff in
      let attempts = p.etcp_dat_hdr.tx_attempts in
      let due = is_due p time_now in
      let after = if (attempts == 0) || due then mark cq s else cq in
      let rest = mark_dats left after (i + 1) time_now in
      if is_rdy p.tx_state then (if due && ltb 10 attempts then none else rest) else some (cq, i)
]

-- The two halves of `etcpTxTc`, on a queue that may be NULL: the queue, and the limit.
unfoldable pub ack_limit : Option (Cq PBuff) → Option (Cq PBuff) × ℕ
ack_limit none = (none, 0)
ack_limit (some cq) =
    let (after, i) = mark_acks (cq.rd_max - cq.rd_min) cq cq.rd_min in (some after, i - cq.rd_min)

unfoldable pub dat_limit : Option (Cq PBuff) → ℕ → Option (Option (Cq PBuff) × ℕ)
dat_limit none time_now = some (none, 0)
dat_limit (some cq) time_now = do
  r ← mark_dats (cq.rd_max - cq.rd_min) cq cq.rd_min time_now
  some (some r.0, r.1 - cq.rd_min)

-- `etcpTxTc`.
unfoldable pub etcp_tx_tc {ℓ} : {W : Type ℓ} → (W → ℕ × W) → W → Queues → Option (TxTc × W)
etcp_tx_tc clock w q = do
  let acks = ack_limit q.recv_tx_q
  let read = clock w
  dats ← dat_limit q.send_tx_q read.0
  let answer : TxTc = record {
    ack_first = true;
    max_ack = pos acks.1;
    max_dat = pos dats.1;
    queues = record q { send_tx_q = dats.0; recv_tx_q = acks.0 };
  }
  some (answer, read.1)
