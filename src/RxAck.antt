-- ===== src/RxAck.antt =====
-- `etcpOnRxAck` of src/etcp.c: a received acknowledgement, against the connection that it is for.
-- The size of the payload's header is a field of the receiver's packet buffer, which the function
-- writes, and reads before: it is an argument and a result. The bytes of the acknowledgement, read
-- as a packet buffer, are the parameter `as_buffer`. The fields behind the header are as many as
-- its count says; a shorter list has no result. The loop over a range is on fuel.
pub mod Range
pub mod First
pub mod Released
use etcp.Base.{
  ℕ, zero, suc, ◌+◌, ◌-◌, ◌*◌, ◌%◌, ◌^◌, Bool, true, false, not, ◌&&◌, Option, none, some, ℤ, pos,
  negsuc, pos_part, ◌-ℤ◌, ltb_ℤ, leb_ℤ, ltb, if◌then◌else◌, List, [], ◌∷◌, update, ◌>>=◌, Buffer,
}
use etcp.CircularQueue.{Cq}
use etcp.CircularQueue.Slots.{push_next, commit_slot, overruns}
use etcp.HashTable.{HtKey}
use etcp.HashTable
use etcp.Packet.{
  EtcpError, enoerr, ebadpkt, erejconn, PBuff, SackHdr, SackField, sizeof_sack_hdr,
  sizeof_sack_field, sizeof_pbuff,
}
use etcp.Conn.{Conn, FlowId}
use etcp.Ack.{process_ack}
use etcp.State.{Store}
use etcp.Socket.{dst_key, src_key}

-- The conversion to 64 bits.
abbrev pub wrap_64 : ℤ → ℕ
wrap_64 (pos n) = n % 2 ^ 64
wrap_64 (negsuc n) = 2 ^ 64 - 1 - n % 2 ^ 64

-- The loop over a range that starts at `first`, from the 16-bit `ackIdx` on.
unfoldable pub ack_range : ℕ → Cq PBuff → ℕ → ℕ → ℕ → Option (Cq PBuff)
ack_range zero cq first ack_idx ack_count = none
ack_range (suc fuel) cq first ack_idx ack_count = elim (ltb ack_idx ack_count) [
  | true ↦
      let after = (process_ack cq ((first + ack_idx) % 2 ^ 64)).1 in
      ack_range fuel after first ((ack_idx + 1) % 2 ^ 16) ack_count
  | false ↦ some cq
]

-- The loop over the ranges, with the number that are left.
unfoldable pub ack_ranges : ℕ → Cq PBuff → ℕ → ℕ → List SackField → Option (Cq PBuff)
ack_ranges fuel cq base zero fields = some cq
ack_ranges fuel cq base (suc left) [] = none
ack_ranges fuel cq base (suc left) (field ∷ rest) =
    ack_range fuel cq (base + field.offset) 0 field.count
    >>= (λ after. ack_ranges fuel after base left rest)

module _ ⦃b : Buffer PBuff⦄ (as_buffer : SackHdr → PBuff) where
  -- The acknowledgement kept in the receive queue. What the queue answers is not read, and the
  -- committed length is that of the whole buffer.
  unfoldable pub keep_sack : Conn → PBuff → ℕ → Option Conn
  keep_sack conn p sack_len =
      let ((_, _, pushed), slot_idx) = push_next conn.rx_q (as_buffer p.etcp_sack_hdr) sack_len in
      let (_, committed) = commit_slot pushed (pos slot_idx) (p.buff_size + sizeof_pbuff) in
      if overruns conn.rx_q (pos conn.rx_q.wr_seq) sack_len
      then none
      else some (record conn { rx_q = committed })

  -- The acknowledgement `p` for the connection `c`.
  unfoldable pub take_ack : ℕ → Store → ℕ → PBuff → ℕ → Option (EtcpError × Store)
  take_ack fuel st c p sack_len = do
    conn ← st.conns c
    kept ← keep_sack conn p sack_len
    let hdr = p.etcp_sack_hdr
    tx_q ← ack_ranges fuel kept.tx_q (wrap_64 hdr.sack_base_seq) hdr.sack_count hdr.fields
    let acked = record kept { tx_q = tx_q }
    some (enoerr, record st { conns = update st.conns c (some acked) })

  module _ (hash64 : HtKey → ℕ) where
    -- The lookups, source and destination swapped.
    unfoldable pub find_acked : ℕ → Store → PBuff → ℕ → FlowId → Option (EtcpError × Store)
    find_acked fuel st p sack_len flow =
        elim (HashTable.get hash64 st.state.dst_map (src_key flow)).1 [
          | none ↦ some (erejconn, st)
          | some m ↦ st.maps m >>= (λ map. elim (HashTable.get hash64 map.table (dst_key flow)).1 [
            | none ↦ some (erejconn, st)
            | some c ↦ take_ack fuel st c p sack_len
          ])
        ]

    -- `etcpOnRxAck`, with `etcpDatHdrSize` before and after.
    unfoldable pub on_rx_ack : ℕ → Store → ℤ → PBuff → FlowId → Option (EtcpError × Store × ℤ)
    on_rx_ack fuel st hdr_size p flow =
        let msg_space = pos p.msg_size -ℤ pos p.encap_hdr_size -ℤ hdr_size in
        let sack_len = msg_space -ℤ pos sizeof_sack_hdr in
        let expected = pos (p.etcp_sack_hdr.sack_count * sizeof_sack_field) in
        let found : Option (EtcpError × Store × ℤ) =
          find_acked fuel st p (pos_part sack_len) flow >>= (λ r. some (r.0, r.1, sack_len)) in
        if ltb_ℤ msg_space (pos sizeof_sack_hdr)
        then some (ebadpkt, st, hdr_size)
        else (if leb_ℤ sack_len expected && leb_ℤ expected sack_len
            then found
            else some (ebadpkt, st, sack_len))
