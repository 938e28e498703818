-- ===== src/Sack/Walk/Numbers.antt =====
-- The numbers that `generateAcks` of src/etcp.c acknowledges.
use etcp.Base.{true, ℕ, ◌+◌, ◌%◌, ◌≤◌, ◌<◌, ◌≡◌, List, Result, ok, err, Option, some}
use etcp.CircularQueue.Window.{occupied}
use etcp.Packet.{EtcpError, PBuff, etcp_max_sacks}
use etcp.Conn.{Conn}
use etcp.Sack.{Draft, noted, finished, ack_loop}
use etcp.Sack.Ranges.{numbers}
use etcp.CircularQueue.{Cq}
use etcp.Sack.Walk.Marked.{Marks}
use etcp.Sack.Walk.Based.{HasBase}

-- The loop after a turn's flush, and after the turn.
abbrev after_noted : ℕ → ℕ → Result EtcpError Draft × Conn → Option (EtcpError × Conn)
after_noted left i r = elim r.0 [ err e ↦ some (e, r.1) | ok more ↦ ack_loop left r.1 more (i + 1) ]

abbrev after_flushed : ℕ → ℕ → Result EtcpError Draft × Conn → Option (EtcpError × Conn)
after_flushed left i r = elim r.0 [
  | err e ↦ some (e, r.1)
  | ok draft ↦ after_noted left i (noted r.1 draft i)
]

-- What a walk ends with: the draft that is pushed last, its numbers and how many it has that were
-- not acknowledged before, and the connection, of which only the receive queue differs, by the
-- marks on the packets that were met.
abbrev Ends : ℕ → ℕ → ℕ → ℕ → Option (EtcpError × Conn) → List ℕ → Conn → Type 0
Ends base i left unsent result all conn =
    (more : Draft) × (after : Conn) × (result ≡ finished after more)
    × (numbers base more ≡ all)
    × (more.unsent_acks ≡ unsent)
    × (after ≡ record conn { rx_q = after.rx_q })
    × (more.field_idx < etcp_max_sacks)
    × HasBase base more
    × Marks i left conn.rx_q after.rx_q

-- The first `turns` packets of the window before are marked as acknowledged after.
abbrev pub AreAcked : Cq PBuff → Cq PBuff → ℕ → Type 0
AreAcked before after turns =
    (n : ℕ)
    → before.rd_seq ≤ n
    → n < before.rd_seq + turns
    → occupied before n ≡ true
    → (after.slots (n % before.slot_count)).buff.etcp_dat_hdr.ack_sent ≡ true
