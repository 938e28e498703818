-- ===== src/NetRx/Null.antt =====
-- `doEtcpNetRx` of src/etcp.c where the first frame is a data packet: `etcpOnRxDat` reads its header
-- through `etcpDatHdr`, which is NULL.
use etcp.Base.{
  ℕ, zero, suc, Bool, ◌+◌, ◌-◌, ◌≤◌, ◌≡◌, refl, ap, ◌∙◌, pos_part, Option, false, true, none, ℤ,
  pos, ◌-ℤ◌, ltb, ltb_ℤ, ltb_of_le, arith, Buffer, ◌>>=◌, some,
}
use etcp.HashTable.{HtKey}
use etcp.Packet.{EtcpError, PBuff, SackHdr, etcp_dat, sizeof_msg_head, sizeof_dat_hdr}
use etcp.Conn.{FlowId, sign_extended}
use etcp.Sack.Offset.{sub_pos}
use etcp.State.{Store}
use etcp.NetRx.{
  EthFrame, rx_buff_size, is_etryagain, zero_buff, eth_hlen, eth_fcs_len, eth_p_ectp, rx_stamped,
  has_type, on_rx_dat, on_rx_packet, on_rx_ethernet_frame, net_rx_loop, do_etcp_net_rx,
}

module _ ⦃b : Buffer PBuff⦄ (as_buffer : SackHdr → PBuff) (hash64 : HtKey → ℕ) (granted : ℕ → Bool)
    (zeroed : PBuff) where
  on_rx_dat-null :
      (st : Store) (p : PBuff) (flow : FlowId)
      → p.encap_hdr_size + sizeof_msg_head + sizeof_dat_hdr ≤ p.msg_size
      → on_rx_dat as_buffer hash64 granted zeroed st p none flow ≡ none
  unfolding on_rx_dat
  on_rx_dat-null st p flow roomy =
      let behind = sub_pos p.msg_size p.encap_hdr_size (omega arith) in
      let space = sub_pos (p.msg_size - p.encap_hdr_size) sizeof_msg_head (omega arith) in
      let fits : ltb_ℤ (pos p.msg_size -ℤ pos p.encap_hdr_size -ℤ pos sizeof_msg_head)
            (pos sizeof_dat_hdr)
          ≡ false =
        rw (behind, space) (ground arith) in
      rw (fits, on_rx_dat) refl

  module _ {W : Type 0} (clock : W → ℕ × W) where
    on_rx_packet-null :
        (fuel : ℕ) (st : Store) (frame : EthFrame) (at : ℕ) (p : PBuff) (hw_time : ℕ) (w : W)
        → p.encap_hdr_size + sizeof_msg_head + sizeof_dat_hdr ≤ p.msg_size
        → has_type p etcp_dat ≡ true
        → (on_rx_packet as_buffer hash64 granted zeroed clock fuel st zero_buff frame at p hw_time
            w).0
          ≡ none
    unfolding on_rx_packet
    on_rx_packet-null fuel st frame at p hw_time w roomy dat =
        let behind = sub_pos p.msg_size p.encap_hdr_size (omega arith) in
        let fits : ltb_ℤ (pos p.msg_size -ℤ pos p.encap_hdr_size) (pos sizeof_msg_head) ≡ false =
          rw behind (ground arith) in
        let flow : FlowId = record {
          dst_port = sign_extended p.etcp_hdr.dst_port;
          src_port = sign_extended p.etcp_hdr.src_port;
          dst_addr = frame.h_dest;
          src_addr = frame.h_source;
        } in
        let stamped = rx_stamped p hw_time (clock w).0 in
        rw (fits, on_rx_packet)
          (rw (dat, on_rx_packet)
            (ap (λ (r : Option (EtcpError × Store)). r >>= (λ q. some (q.0, q.1, zero_buff)))
              (on_rx_dat-null st stamped flow roomy)))

    on_rx_ethernet_frame-null :
        (fuel : ℕ) (st : Store) (frame : EthFrame) (size hw_time : ℕ) (w : W)
        → frame.h_proto ≡ eth_p_ectp
        → eth_hlen + eth_fcs_len + sizeof_msg_head + sizeof_dat_hdr ≤ size
        → has_type (frame.packet_at eth_hlen) etcp_dat ≡ true
        → (on_rx_ethernet_frame as_buffer hash64 granted zeroed clock fuel st zero_buff frame size
            hw_time w).0
          ≡ none
    unfolding on_rx_ethernet_frame on_rx_packet
    on_rx_ethernet_frame-null fuel st frame size hw_time w etcp long dat =
        let whole : ltb size (eth_hlen + eth_fcs_len) ≡ false =
          ltb_of_le size (eth_hlen + eth_fcs_len) (omega arith) in
        let p : PBuff = record (frame.packet_at eth_hlen) {
          buff_size = rx_buff_size;
          msg_size = size;
          encap_hdr_size = eth_hlen + eth_fcs_len;
        } in
        rw (whole, on_rx_ethernet_frame)
          (rw (etcp, on_rx_ethernet_frame)
            (on_rx_packet-null fuel st frame eth_hlen p hw_time w long dat))

    module _ (eth_hw_rx : W → ℤ × EthFrame × ℕ × W) where
      -- The loop's first turn, after the card's answer.
      abbrev first_turn : ℕ → ℕ → Store → ℤ × EthFrame × ℕ × W → Option (ℕ × Store × W)
      first_turn fuel ack_fuel st r =
          let taken =
            on_rx_ethernet_frame as_buffer hash64 granted zeroed clock ack_fuel st zero_buff r.1
              (pos_part r.0) r.2 r.3 in
          elim (ltb_ℤ (pos 0) r.0) [
            | true ↦ taken.0 >>= (λ q. elim (is_etryagain q.0) [
              | true ↦ some (0 + 1, q.1, taken.1)
              | false ↦
                  net_rx_loop as_buffer hash64 granted zeroed clock eth_hw_rx fuel ack_fuel q.1 q.2
                    (0 + 1) taken.1
            ])
            | false ↦ some (0, st, r.3)
          ]

      -- Where the first frame that the card gives is untagged, of ETCP, long enough for a data
      -- header, and marked as a data packet, `doEtcpNetRx` has no result, whatever the fuel and
      -- whatever the store holds: it reads a header through NULL.
      pub do_etcp_net_rx-null :
          (fuel ack_fuel : ℕ) (st : Store) (w after : W) (frame : EthFrame) (size hw_time : ℕ)
          → eth_hw_rx w ≡ (pos size, frame, hw_time, after)
          → frame.h_proto ≡ eth_p_ectp
          → eth_hlen + eth_fcs_len + sizeof_msg_head + sizeof_dat_hdr ≤ size
          → has_type (frame.packet_at eth_hlen) etcp_dat ≡ true
          → do_etcp_net_rx as_buffer hash64 granted zeroed clock eth_hw_rx fuel ack_fuel st w ≡ none
      unfolding do_etcp_net_rx net_rx_loop
      do_etcp_net_rx-null zero ack_fuel st w after frame size hw_time heard etcp long dat = refl
      do_etcp_net_rx-null (suc fuel) ack_fuel st w after frame size hw_time heard etcp long dat =
          let some_bytes : ltb_ℤ (pos 0) (pos size) ≡ true = ground arith in
          let none_taken =
            on_rx_ethernet_frame-null ack_fuel st frame size hw_time after etcp long dat in
          ap (first_turn fuel ack_fuel st) heard
          ∙ rw (some_bytes, first_turn) (rw (none_taken, first_turn) refl)
