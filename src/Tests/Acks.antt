-- ===== src/Tests/Acks.antt =====
-- Acknowledgements, made and received: src/etcp.c.
use etcp.Base.{ℕ, ◌+◌, ◌≤◌, ◌≡◌, refl, false, none, some, arith, pos, [], ◌∷◌}
use etcp.CircularQueue.{Cq, get, adv_wr_seq, scan_wr}
use etcp.CircularQueue.Slots.{commit_slot, write_buff}
use etcp.CircularQueue.Window.{IsValid}
use etcp.Packet.{EtcpError, enoerr, ebadpkt, PBuff, rdy, sizeof_msg_head}
use etcp.Conn.{Conn}
use etcp.NetTx.{do_etcp_net_tx}
use etcp.NetTx.Quiet.{IsQuiet, do_etcp_net_tx-IsQuiet}
use etcp.RxAck.{ack_range, on_rx_ack}
use etcp.RxAck.Range.{ack_range-none}
use etcp.RxAck.Released.{ack_range-releases}
use etcp.RxAck.First.{on_rx_ack-first}
use etcp.Tests.Transport.{
  packet, no_packets, one_waiting, one_waiting-IsValid, one_sending, one_sending-IsValid, ticks,
  card, conn, whole_packets,
}
use etcp.Tests.Sockets.{no_mappings, flow, hash_zero}

do_etcp_net_tx-IsQuiet_example :
    (r : EtcpError × Cq PBuff × ℕ) × (do_etcp_net_tx ticks card 5 one_sending (pos 4) 100 ≡ some r)
    × (r.0 ≡ enoerr → IsQuiet r.1 r.1.wr_seq)
unfolding commit_slot get adv_wr_seq scan_wr
do_etcp_net_tx-IsQuiet_example =
    do_etcp_net_tx-IsQuiet ticks card 5 one_sending (pos 4) 100 one_sending-IsValid (omega arith)
      (omega arith) (omega arith)

-- A packet that has had no acknowledgement, alone in the receive queue.
abbrev unsent : PBuff
unsent = record (packet rdy 0) {
  etcp_dat_hdr = record ((packet rdy 0).etcp_dat_hdr) { ack_sent = false };
}

abbrev one_fresh : Cq PBuff
one_fresh = (commit_slot (write_buff no_packets 0 unsent) (pos 0) 200).1

abbrev fresh_conn : Conn
fresh_conn = record conn { rx_q = one_fresh }

ack_range-releases_example :
    (after : Cq PBuff) × (ack_range 2 one_waiting one_waiting.rd_seq 0 1 ≡ some after)
    × IsValid after
    × (one_waiting.rd_seq + 1 ≤ after.rd_seq)
unfolding commit_slot get adv_wr_seq scan_wr
ack_range-releases_example =
    ack_range-releases 2 one_waiting 1 one_waiting-IsValid
      (λ n lo hi. let only : n ≡ 0 = omega arith in rw only (refl, refl)) (omega arith)
      (omega arith) (omega arith) (omega arith)

ack_range-none_example : ack_range 9 one_waiting 0 0 65536 ≡ none
ack_range-none_example = ack_range-none 9 one_waiting 0 65536 (omega arith)

-- An acknowledgement of one range, in a frame of its length.
abbrev ack : PBuff
ack = record (packet rdy 0) {
  msg_size = 162;
  encap_hdr_size = 18;
  etcp_sack_hdr = record ((packet rdy 0).etcp_sack_hdr) {
    sack_count = 1;
    fields = record { offset = 0; count = 1 } ∷ [];
  };
}

on_rx_ack-first_example :
    on_rx_ack ⦃b = whole_packets⦄ (λ hdr. packet rdy 0) hash_zero 9 no_mappings (pos 0) ack flow
    ≡ some (ebadpkt, no_mappings, pos (sizeof_msg_head + 8))
on_rx_ack-first_example =
    on_rx_ack-first ⦃b = whole_packets⦄ (λ hdr. packet rdy 0) hash_zero 9 no_mappings ack flow refl
