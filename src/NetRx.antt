-- ===== src/NetRx.antt =====
-- The receiving side of src/etcp.c from the wire to a connection: `doEtcpNetRx`,
-- `etcpOnRxEthernetFrame`, `etcpOnRxPacket` and `etcpOnRxDat`.
-- The card and the clock are parameters on a state `W` of their own, as for the sender. A frame is
-- what the receiver reads in its buffer: the Ethernet header's fields, and the packet at an offset.
-- `etcpOnRxDat` reads its header one data header behind `etcpDatHdr`, which is NULL until an
-- acknowledgement sets it, through the other name that the union gives it: a read through NULL has
-- no result. That pointer and the size that `etcpOnRxAck` leaves go from frame to frame.
pub mod Null
use etcp.Base.{
  ℕ, zero, suc, ◌+◌, ◌-◌, ◌*◌, ◌%◌, ◌^◌, Bool, true, false, ◌&&◌, Option, none, some, ℤ, pos,
  pos_part, ◌-ℤ◌, ltb_ℤ, ltb, ◌==◌, if◌then◌else◌, update, ◌>>=◌, Buffer,
}
use etcp.HashTable.{HtKey}
use etcp.HashTable
use etcp.Packet.{
  EtcpError, ebadpkt, erejconn, etryagain, PBuff, SackHdr, etcp_dat, etcp_ack, sizeof_msg_head,
  sizeof_dat_hdr, sizeof_sack_hdr, DatHdr, MsgHead,
}
use etcp.Conn.{FlowId, sign_extended}
use etcp.Receive.{receive_dat}
use etcp.Sack.{succeeds}
use etcp.State.{Store}
use etcp.Socket.{dst_key, src_key}
use etcp.NewConn.{add_new_conn}
use etcp.RxAck.{on_rx_ack}

-- `MAX_FRAME - sizeof(pbuff)`.
abbrev pub rx_buff_size : ℕ
rx_buff_size = 2 * 1024 - 8

-- `ETH_HLEN`, `ETH_FCS_LEN`, `ETH_P_ECTP` and `ETH_P_8021Q`.
abbrev pub eth_hlen : ℕ
eth_hlen = 14

abbrev pub eth_fcs_len : ℕ
eth_fcs_len = 4

abbrev pub eth_p_ectp : ℕ
eth_p_ectp = 34952

abbrev pub eth_p_8021q : ℕ
eth_p_8021q = 33024

-- A received frame.
pub record EthFrame : Type 0 where
  pub h_dest : ℕ
  pub h_source : ℕ
  pub h_proto : ℕ
  pub packet_at : ℕ → PBuff
  -- The data header that is read at an offset.
  pub dat_hdr_at : ℕ → DatHdr

-- What a frame leaves in the buffer: `etcpDatHdrSize`, and the offset that `etcpDatHdr` points to.
pub record RxBuff : Type 0 where
  pub hdr_size : ℤ
  pub dat_hdr : Option ℕ

-- The buffer that `doEtcpNetRx` starts with.
abbrev pub zero_buff : RxBuff
zero_buff = record { hdr_size = pos 0; dat_hdr = none }

-- `etcpErr == etcpETRYAGAIN`.
abbrev pub is_etryagain : EtcpError → Bool
is_etryagain etryagain = true
is_etryagain _ = false

-- The times of reception, and the flags that say so.
abbrev pub rx_stamped : PBuff → ℕ → ℕ → PBuff
rx_stamped p hw_time sw_time = record p {
  etcp_hdr = record (p.etcp_hdr) {
    ts = record (p.etcp_hdr.ts) { hw_rx_time_ns = hw_time; sw_rx_time_ns = sw_time };
    hw_rx_ts = true;
    sw_rx_ts = true;
  };
}

-- `head->fulltype == ETCP_V1_FULLHEAD(type)`.
abbrev pub has_type : PBuff → ℕ → Bool
has_type p type =
    (p.etcp_hdr.type == type) && ((p.etcp_hdr.ver == 1) && (p.etcp_hdr.magic == 1163150160))

-- The code, the store and the buffer.
abbrev pub Received : Type 0
Received = Option (EtcpError × Store × RxBuff)

-- The buffer after an acknowledgement at offset `at`, for the size that it leaves: the pointer is set
-- once the header fits.
abbrev pub acked_buff : RxBuff → PBuff → ℕ → ℤ → RxBuff
acked_buff buff p at hdr_size =
    let space = pos p.msg_size -ℤ pos p.encap_hdr_size -ℤ buff.hdr_size in
    record {
      hdr_size = hdr_size;
      dat_hdr =
          if ltb_ℤ space (pos sizeof_sack_hdr) then buff.dat_hdr else some (at + sizeof_msg_head);
    }

module _ ⦃b : Buffer PBuff⦄ (as_buffer : SackHdr → PBuff) (hash64 : HtKey → ℕ) (granted : ℕ → Bool)
    (zeroed : PBuff) where
  -- A data packet for the connection `c`.
  unfoldable pub take_dat : Store → ℕ → PBuff → Option (EtcpError × Store)
  take_dat st c p = do
    conn ← st.conns c
    got ← receive_dat (granted st.callocs) zeroed conn.rx_q conn.stale_q p
    let after = record conn { rx_q = got.1; stale_q = got.2 }
    let counted = record st { callocs = st.callocs + 1 }
    some (got.0, record counted { conns = update counted.conns c (some after) })

  -- The packet that starts a connection.
  unfoldable pub take_first : Store → ℕ → PBuff → FlowId → Option (EtcpError × Store)
  take_first st m p flow =
      let from : EtcpError × Store × Option ℕ × Option ℕ → Option (EtcpError × Store) =
        λ r. r.2 >>= (λ recv_conn. take_dat r.1 recv_conn p) in
      let settled : EtcpError × Store × Option ℕ × Option ℕ → Option (EtcpError × Store) =
        λ r. if succeeds r.0 then from r else some (r.0, r.1) in
      add_new_conn hash64 granted zeroed st m flow p.etcp_dat_hdr.no_ret >>= settled

  -- The lookups of `etcpOnRxDat`.
  unfoldable pub find_dat : Store → PBuff → FlowId → Option (EtcpError × Store)
  find_dat st p flow = elim (HashTable.get hash64 st.state.dst_map (dst_key flow)).1 [
    | none ↦ some (erejconn, st)
    | some m ↦ st.maps m >>= (λ map. elim (HashTable.get hash64 map.table (src_key flow)).1 [
      | none ↦ take_first st m p flow
      | some c ↦ take_dat st c p
    ])
  ]

  -- `etcpOnRxDat`, with the header that it finds through `etcpDatHdr`, if that is not NULL.
  unfoldable pub on_rx_dat : Store → PBuff → Option DatHdr → FlowId → Option (EtcpError × Store)
  on_rx_dat st p read flow =
      let msg_space = pos p.msg_size -ℤ pos p.encap_hdr_size -ℤ pos sizeof_msg_head in
      let dat_len = pos_part (msg_space -ℤ pos sizeof_dat_hdr) in
      elim (ltb_ℤ msg_space (pos sizeof_dat_hdr)) [
        | true ↦ some (ebadpkt, st)
        | false ↦ elim read [
          | none ↦ none
          | some hdr ↦ elim (dat_len == hdr.dat_len) [
            | true ↦ find_dat st (record p { etcp_dat_hdr = hdr }) flow
            | false ↦ some (ebadpkt, st)
          ]
        ]
      ]

  module _ {W : Type 0} (clock : W → ℕ × W) where
    -- `etcpOnRxPacket`, at offset `at` of a frame.
    unfoldable pub on_rx_packet : ℕ → Store → RxBuff → EthFrame → ℕ → PBuff → ℕ → W → Received × W
    on_rx_packet fuel st buff frame at old hw_time w =
        let (sw_time, w_read) = clock w in
        let p = rx_stamped old hw_time sw_time in
        let flow : FlowId = record {
          dst_port = sign_extended p.etcp_hdr.dst_port;
          src_port = sign_extended p.etcp_hdr.src_port;
          dst_addr = frame.h_dest;
          src_addr = frame.h_source;
        } in
        let read : Option DatHdr = elim buff.dat_hdr [
          | none ↦ none
          | some offset ↦ some (frame.dat_hdr_at (offset + sizeof_dat_hdr))
        ] in
        let as_dat : Received = on_rx_dat st p read flow >>= (λ r. some (r.0, r.1, buff)) in
        let as_ack : Received =
          on_rx_ack as_buffer hash64 fuel st buff.hdr_size p flow
          >>= (λ r. some (r.0, r.1, acked_buff buff p at r.2)) in
        elim (ltb_ℤ (pos p.msg_size -ℤ pos p.encap_hdr_size) (pos sizeof_msg_head)) [
          | true ↦ (some (ebadpkt, st, buff), w)
          | false ↦ elim (has_type p etcp_dat) [
            | true ↦ (as_dat, w_read)
            | false ↦ elim (has_type p etcp_ack) [
              | true ↦ (as_ack, w_read)
              | false ↦ (some (ebadpkt, st, buff), w_read)
            ]
          ]
        ]

    -- `etcpOnRxEthernetFrame`, for a frame of `msg_size` bytes.
    unfoldable pub on_rx_ethernet_frame : ℕ → Store → RxBuff → EthFrame → ℕ → ℕ → W → Received × W
    on_rx_ethernet_frame fuel st buff frame msg_size hw_time w =
        let encap = eth_hlen + eth_fcs_len in
        let sized : ℕ → ℕ → PBuff = λ at size. record (frame.packet_at at) {
          buff_size = rx_buff_size;
          msg_size = msg_size;
          encap_hdr_size = size;
        } in
        let taken : ℕ → ℕ → Received × W =
          λ at size. on_rx_packet fuel st buff frame at (sized at size) hw_time w in
        if ltb msg_size encap
        then (some (ebadpkt, st, buff), w)
        else (if frame.h_proto == eth_p_ectp
            then taken eth_hlen encap
            else (if frame.h_proto == eth_p_8021q
                then taken (eth_hlen + 2) (encap + 2)
                else (some (ebadpkt, st, buff), w)))

    module _ (eth_hw_rx : W → ℤ × EthFrame × ℕ × W) where
      -- The loop of `doEtcpNetRx` with `result` packets so far, on fuel of its own. No result means
      -- that a frame had none.
      unfoldable pub net_rx_loop : ℕ → ℕ → Store → RxBuff → ℕ → W → Option (ℕ × Store × W)
      net_rx_loop zero ack_fuel st buff result w = none
      net_rx_loop (suc fuel) ack_fuel st buff result w =
          let (rx_len, frame, hw_time, w_heard) = eth_hw_rx w in
          let (taken, w_taken) =
            on_rx_ethernet_frame ack_fuel st buff frame (pos_part rx_len) hw_time w_heard in
          let onward : EtcpError × Store × RxBuff → Option (ℕ × Store × W) = λ r.
            elim (is_etryagain r.0) [
              | true ↦ some (result + 1, r.1, w_taken)
              | false ↦ net_rx_loop fuel ack_fuel r.1 r.2 (result + 1) w_taken
            ] in
          elim (ltb_ℤ (pos 0) rx_len) [
            | true ↦ taken >>= onward
            | false ↦ some (result, st, w_heard)
          ]

      -- `doEtcpNetRx`: the number of packets. The buffer is zero at first.
      unfoldable pub do_etcp_net_rx : ℕ → ℕ → Store → W → Option (ℕ × Store × W)
      do_etcp_net_rx fuel ack_fuel st w = net_rx_loop fuel ack_fuel st zero_buff 0 w
