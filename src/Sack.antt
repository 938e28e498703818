-- ===== src/Sack.antt =====
-- `generateAcks` and `pushSackEthPacket` of src/etcp.c: the acknowledgements of received packets,
-- as ranges of sequence numbers.
-- The array of fields behind the header is a function from the index, zero where nothing was
-- written. Where the code reads or writes past its array, or past a slot, there is no result.
-- The loop reads the window of `rxQ`, which it does not move, so its turns are counted beforehand.
pub mod Offset
pub mod Pushed
pub mod Ranges
pub mod Walk
pub mod Stale
use etcp.Base.{
  ℕ, zero, suc, ◌+◌, ◌-◌, ◌*◌, ◌%◌, ◌^◌, min, Bool, true, false, ℤ, pos, negsuc, pos_part, ◌+ℤ◌,
  ◌-ℤ◌, sub_ℕ, ltb, ltb_ℤ, Option, none, some, ◌>>=◌, leb, leb_ℤ, ◌==◌, ◌&&◌, if◌then◌else◌, Result,
  ok, err, List, [], ◌∷◌, update,
}
use etcp.CircularQueue.{Cq, CqError}
use etcp.CircularQueue.Slots.{room, get_next_wr, get_rd, commit_slot, write_buff}
use etcp.Packet.{
  EtcpError, enoerr, ecqerr, etryagain, PBuff, MsgHead, Time, DatHdr, SackField, SackHdr, etcp_ack,
  sizeof_msg_head, sizeof_sack_hdr, sizeof_sack_field, sizeof_pbuff, etcp_max_sacks,
}
use etcp.Conn.{Conn, FlowId, sign_extended}
use etcp.UserTx.{mk_eth_pkt, is_enoerr, no_slot_code}

-- The first `count` fields, from index `i` on.
abbrev pub fields_from : ℕ → ℕ → (ℕ → SackField) → List SackField
fields_from zero i fields = []
fields_from (suc count) i fields = fields i ∷ fields_from count (i + 1) fields

-- The length of a packet with `count` fields behind a header of `eth_len` bytes.
abbrev pub sack_size : ℕ → ℕ → ℕ
sack_size eth_len count = eth_len + sizeof_msg_head + sizeof_sack_hdr + sizeof_sack_field * count

abbrev pub sack_packet : Conn → PBuff → ℕ → ℕ → SackHdr → (ℕ → SackField) → ℕ → PBuff
sack_packet conn old buff_size eth_len hdr fields count = record old {
  buff_size = buff_size;
  encap_hdr_size = eth_len;
  msg_size = sack_size eth_len count;
  etcp_hdr = record (old.etcp_hdr) {
    type = etcp_ack;
    ver = 1;
    magic = 1163150160;
    src_port = sign_extended conn.flow_id.dst_port;
    dst_port = sign_extended conn.flow_id.src_port;
  };
  etcp_sack_hdr = record hdr { fields = fields_from count 0 fields };
}

-- `ethOverhead`.
abbrev pub eth_overhead : ℤ → ℕ
eth_overhead vlan = if ltb_ℤ vlan (pos 0) then 14 else 14 + 2

-- How many bytes of a slot behind its header a packet of `count` fields writes.
abbrev pub sack_written : ℕ → ℤ → ℕ → ℕ
sack_written buff_size vlan count = elim (mk_eth_pkt buff_size vlan) [
  | err _ ↦ sizeof_pbuff
  | ok eth_len ↦ sizeof_pbuff + sack_size eth_len count
]

-- `pushSackEthPacket`. A slot that is too small is only logged: where the packet ends beyond it, in
-- the next slot, and where the assertion on the packet's size fails, there is no result.
unfoldable pub push_sack : Conn → SackHdr → (ℕ → SackField) → ℕ → Option (EtcpError × Conn)
push_sack conn hdr fields count = elim (get_next_wr conn.tx_q) [
  | err e ↦ some (no_slot_code e, conn)
  | ok at ↦
      let slot = conn.tx_q.slots at.0 in
      let buff_size = slot.len - sizeof_pbuff in
      let size = sack_size (eth_overhead conn.vlan) count in
      elim (ltb (room conn.tx_q) (sack_written buff_size conn.vlan count)) [
        | true ↦ none
        | false ↦ elim (mk_eth_pkt buff_size conn.vlan) [
          | err e ↦ some (
            e,
            record conn {
              tx_q = write_buff conn.tx_q at.0 (record (slot.buff) { buff_size = buff_size });
            },
          )
          | ok eth_len ↦
              let p = sack_packet conn slot.buff buff_size eth_len hdr fields count in
              let (code, after) = commit_slot (write_buff conn.tx_q at.0 p) (pos at.1) size in
              elim (is_enoerr code) [
                | false ↦ some (ecqerr, record conn { tx_q = after })
                | true ↦ elim (p.msg_size == size) [
                  | false ↦ none
                  | true ↦ some (enoerr, record conn { tx_q = after })
                ]
              ]
        ]
      ]
]

-- The variables of the loop: `fieldIdx`, `fieldInProgress`, `unsentAcks` and the packet under way.
pub record Draft : Type 0 where
  pub field_idx : ℕ
  pub field_in_progress : Bool
  pub unsent_acks : ℕ
  pub sack_hdr : SackHdr
  pub sack_fields : ℕ → SackField

abbrev pub blank : Draft
blank = record {
  field_idx = 0;
  field_in_progress = false;
  unsent_acks = 0;
  sack_hdr = record {
    sack_base_seq = pos 0;
    sack_count = 0;
    time_first = record {
      sw_tx_time_ns = 0;
      hw_tx_time_ns = 0;
      hw_rx_time_ns = 0;
      sw_rx_time_ns = 0;
    };
    time_last = record {
      sw_tx_time_ns = 0;
      hw_tx_time_ns = 0;
      hw_rx_time_ns = 0;
      sw_rx_time_ns = 0;
    };
    fields = [];
  };
  sack_fields = λ i. record { offset = 0; count = 0 };
}

-- The conversion to 32 bits.
abbrev pub wrap_32 : ℤ → ℕ
wrap_32 (pos n) = n % 2 ^ 32
wrap_32 (negsuc n) = 2 ^ 32 - 1 - n % 2 ^ 32

-- `fieldIdx++` where a field is in progress.
abbrev pub closed : Draft → Draft
closed d =
    if d.field_in_progress
    then record d { field_idx = d.field_idx + 1; field_in_progress = false }
    else d

-- A new field for the packet of number `seq`, and with it the packet's own first entries.
abbrev pub started : Conn → PBuff → Draft → Draft
started conn p d =
    let first_hdr = record (d.sack_hdr) {
      time_first = p.etcp_hdr.ts;
      sack_base_seq = conn.seq_ack;
    } in
    record d {
      sack_hdr = if d.field_idx == 0 then first_hdr else d.sack_hdr;
      sack_fields =
          update d.sack_fields d.field_idx
            (record { offset = wrap_32 (pos p.etcp_dat_hdr.seq_num -ℤ conn.seq_ack); count = 0 });
      field_in_progress = true;
    }

-- The packet of number `seq` counted in the field in progress.
abbrev pub counted : PBuff → Draft → Draft
counted p d =
    let field = d.sack_fields d.field_idx in
    record d {
      unsent_acks = d.unsent_acks + 1;
      sack_fields =
          update d.sack_fields d.field_idx
            (record { offset = field.offset; count = (field.count + 1) % 2 ^ 32 });
      sack_hdr = record (d.sack_hdr) { time_last = p.etcp_hdr.ts };
    }

-- `datHdr->ackSent = 1` in the slot of the receive queue.
abbrev pub acked : Conn → ℕ → Conn
acked conn s =
    let p = (conn.rx_q.slots s).buff in
    record conn {
      rx_q =
          write_buff conn.rx_q s
            (record p { etcp_dat_hdr = record (p.etcp_dat_hdr) { ack_sent = true } });
    }

-- What is pushed moves `seqAck` to the end of the packet's first field.
abbrev pub advanced : Conn → Draft → Conn
advanced conn d =
    let field = d.sack_fields 0 in
    record conn { seq_ack = conn.seq_ack +ℤ pos field.offset +ℤ pos field.count }

-- `err == etcpENOERR` and `err == cqEWRONGSLOT`.
abbrev pub succeeds : EtcpError → Bool
succeeds enoerr = true
succeeds _ = false

abbrev pub is_wrong_slot : CqError → Bool
is_wrong_slot CqError.ewrongslot = true
is_wrong_slot _ = false

-- A full packet is pushed: an error that ends the function, or the next draft. The limit on packets
-- is compared with a counter that stays 0, so it never ends the loop.
unfoldable pub flushed : Conn → Draft → Option (Result EtcpError Draft × Conn)
flushed conn d =
    let settled : EtcpError × Conn → Option (Result EtcpError Draft × Conn) =
      λ r. some (if succeeds r.0 then (ok blank, advanced r.1 d) else (err r.0, r.1)) in
    elim (ltb d.field_idx etcp_max_sacks) [
      | true ↦ some (ok d, conn)
      | false ↦ push_sack conn d.sack_hdr d.sack_fields etcp_max_sacks >>= settled
    ]

-- The rest of a turn, for number `i`.
unfoldable pub noted : Conn → Draft → ℕ → Result EtcpError Draft × Conn
noted conn d i = elim (get_rd conn.rx_q (pos i)) [
  | err e ↦ (if is_wrong_slot e then ok (closed d) else err ecqerr, conn)
  | ok s ↦
      let p = (conn.rx_q.slots s).buff in
      if p.etcp_dat_hdr.ack_sent
      then (ok d, conn)
      else (if p.etcp_dat_hdr.no_ack
          then (ok (closed d), acked conn s)
          else (ok (counted p (if d.field_in_progress then d else started conn p d)), acked conn s))
]

-- The push of the last packet, where something is in it. A thirteenth field is read past the array.
unfoldable pub finished : Conn → Draft → Option (EtcpError × Conn)
finished conn d =
    let count = d.field_idx + 1 in
    let hdr = record (d.sack_hdr) { sack_count = count % 2 ^ 8 } in
    let settled : EtcpError × Conn → Option (EtcpError × Conn) =
      λ r. some (r.0, if succeeds r.0 then advanced r.1 d else r.1) in
    elim (ltb 0 d.unsent_acks) [
      | false ↦ some (enoerr, conn)
      | true ↦ elim (ltb etcp_max_sacks count) [
        | true ↦ none
        | false ↦ push_sack conn hdr d.sack_fields count >>= settled
      ]
    ]

-- The loop from number `i` on, with the turns that are left.
unfoldable pub ack_loop : ℕ → Conn → Draft → ℕ → Option (EtcpError × Conn)
ack_loop zero conn d i = finished conn d
ack_loop (suc left) conn d i =
    let onward : Result EtcpError Draft × Conn → Option (EtcpError × Conn) = λ r. elim r.0 [
      | err e ↦ some (e, r.1)
      | ok draft ↦
          let (next, noted_conn) = noted r.1 draft i in
          elim next [
            | err e ↦ some (e, noted_conn)
            | ok more ↦ ack_loop left noted_conn more (i + 1)
          ]
    ] in
    flushed conn d >>= onward

-- `generateAcks`.
unfoldable pub generate_acks : Conn → ℤ → ℤ → Option (EtcpError × Conn)
generate_acks conn max_ack_packets max_slots =
    let turns = min (conn.rx_q.rd_max - conn.rx_q.rd_min) (pos_part max_slots) in
    if leb_ℤ max_ack_packets (pos 0)
    then some (enoerr, conn)
    else (if leb_ℤ conn.rx_q.readable (pos 0) && leb_ℤ (pos 0) conn.rx_q.readable
        then some (enoerr, conn)
        else ack_loop turns conn blank conn.rx_q.rd_min)
