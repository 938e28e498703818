-- ===== src/UserTx.antt =====
-- `doEtcpUserTx` of src/etcp.c, with `etcpMkEthPkt`: the user's bytes, as packets of the send
-- queue. The clock is the parameter `clock`, on a state `W` of its own. Of the Ethernet header only
-- its length is in the model. A slot has at least the 8 bytes that the code takes off its length.
-- The code takes those 8 bytes for the packet structure, which has 96: a turn that writes past the
-- slot's end, into the next slot, has no result.
pub mod Outcomes
pub mod Single
use etcp.Base.{
  ℕ, zero, suc, ◌+◌, ◌-◌, ◌%◌, ◌^◌, min, Bool, true, false, Option, none, some, ℤ, pos, ltb, ltb_ℤ,
  int_16, if◌then◌else◌, Result, ok, err, Bytes, memcpy,
}
use etcp.CircularQueue.{Cq, CqError}
use etcp.CircularQueue.Slots.{get_next_wr, commit_slot, write_buff, room}
use etcp.Packet.{
  EtcpError, enoerr, ecqerr, etryagain, efatal, PBuff, MsgHead, Time, DatHdr, rdy, etcp_dat,
  sizeof_msg_head, sizeof_dat_hdr, sizeof_pbuff,
}
use etcp.Conn.{Conn, FlowId, sign_extended}

-- `etcpMkEthPkt`: the length of the header, 14 bytes and 2 more with a VLAN tag, in a buffer of at
-- least 60. The tag is converted to 16 bits.
unfoldable pub mk_eth_pkt : ℕ → ℤ → Result EtcpError ℕ
mk_eth_pkt len vlan =
    if ltb len 60 then err efatal else (if ltb_ℤ (int_16 vlan) (pos 0) then ok 14 else ok (14 + 2))

-- `hdrsLen`, and a packet of `ETCP_V1_FULLHEAD(ETCP_DAT)` in a buffer that held `old`.
abbrev pub hdrs_len : ℕ
hdrs_len = sizeof_msg_head + sizeof_dat_hdr

abbrev pub dat_packet : Conn → PBuff → ℕ → ℕ → ℕ → ℕ → Bytes → PBuff
dat_packet conn old buff_size eth_len dat_len t src = record old {
  tx_state = rdy;
  buff_size = buff_size;
  msg_size = eth_len + hdrs_len + dat_len;
  encap_hdr_size = eth_len;
  etcp_hdr = record (old.etcp_hdr) {
    type = etcp_dat;
    ver = 1;
    magic = 1163150160;
    src_port = sign_extended conn.flow_id.src_port;
    dst_port = sign_extended conn.flow_id.dst_port;
    ts = record (old.etcp_hdr.ts) { sw_tx_time_ns = t };
  };
  etcp_dat_hdr = record (old.etcp_dat_hdr) {
    dat_len = dat_len % 2 ^ 32;
    seq_num = conn.seq_snd;
    tx_attempts = 0;
  };
  payload = memcpy old.payload src dat_len;
}

-- The start of a packet that fails: its buffer is set up, and its Ethernet header if there is one.
abbrev pub bare : PBuff → ℕ → PBuff
bare old buff_size = record old { buff_size = buff_size; msg_size = 0 }

abbrev pub framed : PBuff → ℕ → ℕ → PBuff
framed old buff_size eth_len = record old {
  buff_size = buff_size;
  msg_size = eth_len;
  encap_hdr_size = eth_len;
}

-- `cqErr == cqENOERR`.
abbrev pub is_enoerr : CqError → Bool
is_enoerr CqError.enoerr = true
is_enoerr _ = false

-- What the function makes of an error of `cqGetNextWr`: the code, and `*toSendLen_io`.
abbrev pub no_slot_code : CqError → EtcpError
no_slot_code CqError.enoslot = etryagain
no_slot_code _ = ecqerr

abbrev pub no_slot_len : CqError → ℕ → ℕ → ℕ
no_slot_len CqError.enoslot bytes_sent to_send_len = bytes_sent
no_slot_len _ bytes_sent to_send_len = to_send_len

-- How many bytes of a slot behind its header a turn for `to_send_len` bytes writes: the packet structure, and what it could
-- format behind it.
abbrev pub written : ℕ → ℤ → ℕ → ℕ
written buff_size vlan to_send_len = elim (mk_eth_pkt buff_size vlan) [
  | err _ ↦ sizeof_pbuff
  | ok eth_len ↦
      if ltb (buff_size - eth_len) (hdrs_len + 1)
      then sizeof_pbuff + eth_len
      else sizeof_pbuff + eth_len + hdrs_len + min (buff_size - eth_len - hdrs_len) to_send_len
]

module _ {W : Type 0} (clock : W → ℕ × W) where
  -- What one turn of the loop does to the connection for slot `s` of number `seq`: the bytes that
  -- it took, or an error.
  unfoldable pub tx_turn : Conn → ℕ → ℕ → Bytes → ℕ → W → Result EtcpError ℕ × Conn × W
  tx_turn conn s seq src to_send_len w =
      let slot = conn.tx_q.slots s in
      let buff_size = slot.len - 8 in
      elim (mk_eth_pkt buff_size conn.vlan) [
        | err e ↦
            (err e, record conn { tx_q = write_buff conn.tx_q s (bare slot.buff buff_size) }, w)
        | ok eth_len ↦
            let dat_len = min (buff_size - eth_len - hdrs_len) to_send_len in
            let (t, w_read) = clock w in
            let p = dat_packet conn slot.buff buff_size eth_len dat_len t src in
            let (code, after) =
              commit_slot (write_buff conn.tx_q s p) (pos seq) (eth_len + hdrs_len + dat_len) in
            if ltb (buff_size - eth_len) (hdrs_len + 1)
            then (
              err efatal,
              record conn { tx_q = write_buff conn.tx_q s (framed slot.buff buff_size eth_len) },
              w,
            )
            else (if is_enoerr code
                then (ok dat_len, record conn { tx_q = after; seq_snd = conn.seq_snd + 1 }, w_read)
                else (err ecqerr, record conn { tx_q = after }, w_read))
      ]

  -- The loop with `bytes_sent` so far, on fuel: the code, `*toSendLen_io`, and the connection.
  unfoldable pub tx_loop : ℕ → Conn → Bytes → ℕ → ℕ → W → Option (EtcpError × ℕ × Conn × W)
  tx_loop zero conn src to_send_len bytes_sent w = none
  tx_loop (suc fuel) conn src to_send_len bytes_sent w =
      if ltb bytes_sent to_send_len
      then (elim (get_next_wr conn.tx_q) [
        | err e ↦ some (no_slot_code e, no_slot_len e bytes_sent to_send_len, conn, w)
        | ok at ↦
            let (done, after, w_after) = tx_turn conn at.0 at.1 src to_send_len w in
            let size = written ((conn.tx_q.slots at.0).len - 8) conn.vlan to_send_len in
            elim (ltb (room conn.tx_q) size) [
              | true ↦ none
              | false ↦ elim done [
                | err e ↦ some (e, to_send_len, after, w_after)
                | ok dat_len ↦ tx_loop fuel after src to_send_len (bytes_sent + dat_len) w_after
              ]
            ]
      ])
      else some (enoerr, bytes_sent, conn, w)

  -- `doEtcpUserTx`.
  unfoldable pub do_etcp_user_tx : ℕ → Conn → Bytes → ℕ → W → Option (EtcpError × ℕ × Conn × W)
  do_etcp_user_tx fuel conn src to_send_len w = tx_loop fuel conn src to_send_len 0 w
