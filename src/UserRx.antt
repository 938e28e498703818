-- ===== src/UserRx.antt =====
-- `doEtcpUserRx` of src/etcp.c: the next packet of a connection's receive queue, given to the user.
-- Of the connection the function uses `rxQ` alone. `*len_io` is read, and never written.
pub mod Outcomes
use etcp.Base.{
  ℕ, zero, suc, min, Bool, true, false, not, Option, none, some, pos, if◌then◌else◌, Bytes, memcpy,
  ok, err,
}
use etcp.CircularQueue.{Cq, CqError}
use etcp.CircularQueue.Slots.{get_next_rd, release_slot}
use etcp.Packet.{EtcpError, enoerr, ecqerr, etryagain, PBuff}

-- What a release's code makes of the function's.
abbrev pub released_code : CqError → EtcpError
released_code CqError.enoerr = enoerr
released_code _ = ecqerr

-- The loop, on fuel: the code, the user's bytes and the queue.
unfoldable pub do_etcp_user_rx : ℕ → Cq PBuff → Bytes → ℕ → Option (EtcpError × Bytes × Cq PBuff)
do_etcp_user_rx zero cq dat len = none
do_etcp_user_rx (suc fuel) cq dat len = elim (get_next_rd cq) [
  | err CqError.enoslot ↦ some (etryagain, dat, cq)
  | err _ ↦ some (ecqerr, dat, cq)
  | ok at ↦
      let p = (cq.slots at.0).buff in
      let (code, after) = release_slot cq (pos at.1) in
      let again = do_etcp_user_rx fuel after dat len in
      if not p.etcp_dat_hdr.ack_sent
      then some (etryagain, dat, cq)
      else (if p.etcp_dat_hdr.stale_dat
          then again
          else some
              (released_code code, memcpy dat p.payload (min p.etcp_dat_hdr.dat_len len), after))
]
