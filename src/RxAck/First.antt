-- ===== src/RxAck/First.antt =====
-- An acknowledgement as the first packet of a call of `doEtcpNetRx`: src/etcp.c.
use etcp.Base.{
  ℕ, ◌+◌, ◌*◌, ◌≡◌, refl, some, pos, ◌-ℤ◌, ltb_ℤ, leb_ℤ, ◌&&◌, false, ◌∙◌, ap, arith, -ℤ_parts,
  eq_of_parts, Buffer,
}
use etcp.HashTable.{HtKey}
use etcp.Packet.{ebadpkt, PBuff, SackHdr, sizeof_msg_head, sizeof_sack_hdr, sizeof_sack_field}
use etcp.Conn.{FlowId}
use etcp.State.{Store}
use etcp.RxAck.{on_rx_ack}

less : (n a b : ℕ) → n ≡ a + b → pos n -ℤ pos a ≡ pos b
less n a b e = eq_of_parts (pos n -ℤ pos a) (pos b) (omega (arith, e, -ℤ_parts (pos n) (pos a)))

-- Whatever the store holds, an acknowledgement with as many fields as its count says, in a frame of
-- just its length, is refused with etcpEBADPKT and changes nothing, where `etcpDatHdrSize` is still
-- 0: the function takes the size of its common header for part of the fields. What it leaves in
-- `etcpDatHdrSize` is the length of the fields and 56.
pub on_rx_ack-first :
    ⦃b : Buffer PBuff⦄ (as_buffer : SackHdr → PBuff) (hash64 : HtKey → ℕ) (fuel : ℕ) (st : Store)
    (p : PBuff) (flow : FlowId)
    → let fields = p.etcp_sack_hdr.sack_count * sizeof_sack_field in
      p.msg_size ≡ p.encap_hdr_size + sizeof_msg_head + sizeof_sack_hdr + fields
      → on_rx_ack as_buffer hash64 fuel st (pos 0) p flow
        ≡ some (ebadpkt, st, pos (sizeof_msg_head + fields))
unfolding on_rx_ack
on_rx_ack-first as_buffer hash64 fuel st p flow whole =
    let fields = p.etcp_sack_hdr.sack_count * sizeof_sack_field in
    let space : pos p.msg_size -ℤ pos p.encap_hdr_size -ℤ pos 0 ≡ pos (136 + fields) =
      ap (λ n. n -ℤ pos 0) (less p.msg_size p.encap_hdr_size (136 + fields) (omega (arith, whole)))
      ∙ less (136 + fields) 0 (136 + fields) (omega arith) in
    let len : pos (136 + fields) -ℤ pos 80 ≡ pos (56 + fields) =
      less (136 + fields) 80 (56 + fields) (omega arith) in
    let long : ltb_ℤ (pos (136 + fields)) (pos 80) ≡ false = ground arith in
    let other : leb_ℤ (pos (56 + fields)) (pos fields) && leb_ℤ (pos fields) (pos (56 + fields))
        ≡ false =
      ground arith in
    rw (space, len, long, other) refl
