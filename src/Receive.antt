-- ===== src/Receive.antt =====
-- `etcpOnRxDat` of src/etcp.c from the sequence numbers on: a data packet of a known connection
-- goes to the receive queue, or to the stale list. What `cqPush` and `llPushSeqOrd` copy of a
-- packet buffer is the parameter `Buffer PBuff`; a packet of the model holds its headers, where the
-- code's copy keeps pointers into the receiver's frame. The number of bytes handed to the copy is
-- the size of the buffer; a copy that ends beyond the slot has no result.
use etcp.Base.{◌+◌, Bool, true, false, pos, ltb, leb, if◌then◌else◌, Option, none, some, Buffer}
use etcp.CircularQueue.{Cq, CqError}
use etcp.CircularQueue.Slots.{push, commit_slot, overruns}
use etcp.LinkedList.{Ll, LlError, push_seq_ord}
use etcp.Packet.{EtcpError, enoerr, ecqerr, erange, etryagain, PBuff, sizeof_pbuff}

-- `datHdr->staleDat = 1`.
abbrev pub marked_stale : PBuff → PBuff
marked_stale p = record p { etcp_dat_hdr = record (p.etcp_dat_hdr) { stale_dat = true } }

-- What the function makes of an answer of `llPushSeqOrd`, and of a refusal of `cqPush`.
abbrev pub stale_code : LlError → EtcpError
stale_code LlError.enoerr = enoerr
stale_code LlError.etrunc = enoerr
stale_code _ = ecqerr

abbrev pub refusal : CqError → EtcpError
refusal CqError.enoslot = etryagain
refusal _ = ecqerr

-- `cqPush` copied, all or what the slot holds.
abbrev pub copies : CqError → Bool
copies CqError.enoerr = true
copies CqError.etrunc = true
copies _ = false

module _ ⦃b : Buffer PBuff⦄ where
  -- The branch of a packet below the window; `got_slot` and `zeroed` are the slot's memory.
  unfoldable pub keep_stale :
      Bool → PBuff → Cq PBuff → Ll PBuff → PBuff → EtcpError × Cq PBuff × Ll PBuff
  keep_stale got_slot zeroed rx_q stale_q p =
      let (code, _, after) =
        push_seq_ord got_slot zeroed stale_q (marked_stale p) (p.buff_size + sizeof_pbuff)
          (pos p.etcp_dat_hdr.seq_num) in
      if p.etcp_dat_hdr.no_ack then (ecqerr, rx_q, stale_q) else (stale_code code, rx_q, after)

  -- The branch of a packet in the window. The answer of `cqCommitSlot` is not read.
  unfoldable pub keep_fresh : Cq PBuff → Ll PBuff → PBuff → Option (EtcpError × Cq PBuff × Ll PBuff)
  keep_fresh rx_q stale_q p =
      let seq = pos p.etcp_dat_hdr.seq_num in
      let (code, copied, pushed) = push rx_q p (p.buff_size + sizeof_pbuff) seq in
      let (_, committed) = commit_slot pushed seq copied in
      let kept =
        if copies code then (enoerr, committed, stale_q) else (refusal code, pushed, stale_q) in
      if overruns rx_q seq (p.buff_size + sizeof_pbuff) then none else some kept

  unfoldable pub receive_dat :
      Bool → PBuff → Cq PBuff → Ll PBuff → PBuff → Option (EtcpError × Cq PBuff × Ll PBuff)
  receive_dat got_slot zeroed rx_q stale_q p =
      if leb rx_q.wr_max p.etcp_dat_hdr.seq_num
      then some (erange, rx_q, stale_q)
      else (if ltb p.etcp_dat_hdr.seq_num rx_q.rd_min
          then some (keep_stale got_slot zeroed rx_q stale_q p)
          else keep_fresh rx_q stale_q p)
