-- ===== src/Sack/Stale.antt =====
-- `generateStaleAcks` of src/etcp.c: the acknowledgements of packets that arrived after they had
-- left the receive window.
-- A turn looks at the first slot of the list, and leaves it there once it is acknowledged: a later
-- turn takes the same slot for a duplicate and releases it. The header pointers in a slot's buffer
-- are the headers of its packet. Where a thirteenth range is written or read past the end of the
-- code's array there is no result.
use etcp.Base.{
  ℕ, zero, suc, ◌+◌, ◌%◌, ◌^◌, true, false, ℤ, pos, pos_part, ◌+ℤ◌, ◌-ℤ◌, ltb_ℤ, leb_ℤ, ltb, ◌==◌,
  ◌&&◌, if◌then◌else◌, Result, ok, err, List, ◌∷◌, update, Option, none, some, ◌>>=◌,
}
use etcp.LinkedList.{LlSlot, get_first, release_head}
use etcp.Packet.{EtcpError, enoerr, efatal, PBuff, etcp_max_sacks}
use etcp.Conn.{Conn}
use etcp.Sack.{push_sack, Draft, blank, wrap_32, closed, counted, succeeds}

-- A new field for the packet of a slot, and with it the packet's own first entries.
abbrev pub stale_started : LlSlot PBuff → Draft → Draft
stale_started slot d =
    let p = slot.buff in
    let first_hdr = record (d.sack_hdr) {
      time_first = p.etcp_hdr.ts;
      sack_base_seq = slot.seq_num;
    } in
    let hdr = if d.field_idx == 0 then first_hdr else d.sack_hdr in
    let offset = wrap_32 (pos p.etcp_dat_hdr.seq_num -ℤ hdr.sack_base_seq) in
    record d {
      sack_hdr = hdr;
      sack_fields = update d.sack_fields d.field_idx (record { offset = offset; count = 0 });
      field_in_progress = true;
    }

-- The draft and the expected number after the packet of a slot.
abbrev pub stale_counted : LlSlot PBuff → Draft → Draft
stale_counted slot d = counted slot.buff (if d.field_in_progress then d else stale_started slot d)

abbrev pub stale_noted : LlSlot PBuff → Draft → ℤ → Draft × ℤ
stale_noted slot d expect =
    if ltb_ℤ expect slot.seq_num && d.field_in_progress
    then (stale_counted slot (closed d), slot.seq_num +ℤ pos 1)
    else (stale_counted slot d, expect +ℤ pos 1)

-- `datHdr->ackSent = 1` in the first slot.
abbrev pub stale_acked : Conn → LlSlot PBuff → List (LlSlot PBuff) → Conn
stale_acked conn slot rest =
    let p = slot.buff in
    let sent = record p { etcp_dat_hdr = record (p.etcp_dat_hdr) { ack_sent = true } } in
    record conn { stale_q = record (conn.stale_q) { slots = record slot { buff = sent } ∷ rest } }

-- A full packet is pushed: an error that ends the function, or the next draft.
unfoldable pub stale_flushed : Conn → Draft → Option (Result EtcpError Draft × Conn)
stale_flushed conn d =
    let settled : EtcpError × Conn → Option (Result EtcpError Draft × Conn) =
      λ r. some (if succeeds r.0 then ok blank else err r.0, r.1) in
    elim (ltb d.field_idx etcp_max_sacks) [
      | true ↦ some (ok d, conn)
      | false ↦ push_sack conn d.sack_hdr d.sack_fields etcp_max_sacks >>= settled
    ]

-- The push of the last packet, where something is in it.
unfoldable pub stale_finished : Conn → Draft → Option (EtcpError × Conn)
stale_finished conn d =
    let count = d.field_idx + 1 in
    let hdr = record (d.sack_hdr) { sack_count = count % 2 ^ 8 } in
    elim (ltb 0 d.unsent_acks) [
      | false ↦ some (enoerr, conn)
      | true ↦ elim (ltb etcp_max_sacks count) [
        | true ↦ none
        | false ↦ push_sack conn hdr d.sack_fields count
      ]
    ]

-- The end of a turn: the function returns, the loop breaks, or it goes on.
pub data StaleTurn : Type 0 where
  returns : EtcpError → StaleTurn
  breaks : StaleTurn
  continues : Draft → ℤ → StaleTurn

-- A turn at the first slot, with those behind it. The field of the packet is one of the array's.
unfoldable pub stale_looked :
    Conn → Draft → ℤ → LlSlot PBuff → List (LlSlot PBuff) → Option (StaleTurn × Conn)
stale_looked conn d expect slot rest =
    let before = expect -ℤ pos 1 in
    let duplicate = leb_ℤ before slot.seq_num && leb_ℤ slot.seq_num before in
    let (more, expected) = stale_noted slot d expect in
    if ltb_ℤ slot.seq_num expect
    then (if duplicate
        then some (continues d expect, record conn { stale_q = release_head conn.stale_q })
        else some (returns efatal, conn))
    else (if ltb more.field_idx etcp_max_sacks
        then some (continues more expected, stale_acked conn slot rest)
        else none)

-- The turn of number `i`, which sets the expected number when it is the first.
unfoldable pub stale_turn : Conn → Draft → ℤ → ℕ → Option (StaleTurn × Conn)
stale_turn conn d expect i = elim (get_first conn.stale_q) [
  | err e ↦ some (breaks, conn)
  | ok (slot, rest) ↦ stale_looked conn d (if i == 0 then slot.seq_num else expect) slot rest
]

-- The loop from turn `i` on, with the turns that are left.
unfoldable pub stale_loop : ℕ → Conn → Draft → ℤ → ℕ → Option (EtcpError × Conn)
stale_loop zero conn d expect i = stale_finished conn d
stale_loop (suc left) conn d expect i =
    let turned : Draft → StaleTurn × Conn → Option (EtcpError × Conn) = λ draft t. elim t.0 [
      | returns e ↦ some (e, t.1)
      | breaks ↦ stale_finished t.1 draft
      | continues more expected ↦ stale_loop left t.1 more expected (i + 1)
    ] in
    let onward : Result EtcpError Draft × Conn → Option (EtcpError × Conn) = λ r. elim r.0 [
      | err e ↦ some (e, r.1)
      | ok draft ↦ stale_turn r.1 draft expect i >>= turned draft
    ] in
    stale_flushed conn d >>= onward

-- `generateStaleAcks`.
unfoldable pub generate_stale_acks : Conn → ℤ → ℤ → Option (EtcpError × Conn)
generate_stale_acks conn max_ack_packets max_slots =
    if leb_ℤ max_ack_packets (pos 0)
    then some (enoerr, conn)
    else (if leb_ℤ conn.stale_q.slot_count (pos 0) && leb_ℤ (pos 0) conn.stale_q.slot_count
        then some (enoerr, conn)
        else stale_loop (pos_part max_slots) conn blank (pos 0) 0)
