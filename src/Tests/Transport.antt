-- ===== src/Tests/Transport.antt =====
-- Packets through the queues of a connection: src/etcp.c.
use etcp.Base.{
  ℕ, ◌≡◌, ◌≤◌, ◌+◌, refl, true, false, some, arith, ℤ, pos, negsuc, [], Bytes, Buffer, ◌+ℤ◌, ◌-ℤ◌,
  ◌-◌, ok,
}
use etcp.CircularQueue.{Cq, new, get, adv_wr_seq, adv_rd_seq, scan_wr, scan_rd}
use etcp.CircularQueue.Slots.{commit_slot, release_slot, write_buff}
use etcp.CircularQueue.Window.{IsValid}
use etcp.CircularQueue.Invariant.{
  new-IsValid, commit_slot-IsValid, release_slot-IsValid, write_buff-IsValid,
}
use etcp.LinkedList.{Ll}
use etcp.Packet.{EtcpError, enoerr, ecqerr, Time, TxState, rdy, now, drp, PBuff, etcp_dat}
use etcp.Conn.{Conn}
use etcp.NetTx.{do_etcp_net_tx}
use etcp.NetTx.Ends.{do_etcp_net_tx-ends, do_etcp_net_tx-skips}
use etcp.UserTx.Single.{HoldsMessage, do_etcp_user_tx-whole}
use etcp.UserTx.{mk_eth_pkt, do_etcp_user_tx}
use etcp.UserTx.Outcomes.{do_etcp_user_tx-ends}
use etcp.UserRx.{do_etcp_user_rx}
use etcp.UserRx.Outcomes.{Receives, do_etcp_user_rx-Receives}
use etcp.Ack.{process_ack}
use etcp.Ack.Outcomes.{Acks, process_ack-Acks}

abbrev pub no_time : Time
no_time = record { sw_tx_time_ns = 0; hw_tx_time_ns = 0; hw_rx_time_ns = 0; sw_rx_time_ns = 0 }

abbrev bytes : Bytes
bytes i = i

-- A data packet of a number, in a state, acknowledged.
abbrev pub packet : TxState → ℕ → PBuff
packet state n = record {
  tx_state = state;
  buff_size = 1024;
  msg_size = 200;
  encap_hdr_size = 14;
  etcp_hdr = record {
    type = etcp_dat;
    ver = 1;
    magic = 1163150160;
    hw_tx_ts = false;
    hw_rx_ts = false;
    sw_tx_ts = false;
    sw_rx_ts = false;
    src_port = 1;
    dst_port = 2;
    ts = no_time;
  };
  etcp_dat_hdr = record {
    seq_num = n;
    dat_len = 10;
    tx_attempts = 0;
    no_ack = false;
    no_ret = false;
    ack_sent = true;
    stale_dat = false;
  };
  etcp_sack_hdr = record {
    sack_base_seq = pos 0;
    sack_count = 0;
    time_first = no_time;
    time_last = no_time;
    fields = [];
  };
  payload = bytes;
}

abbrev pub no_packets : Cq PBuff
no_packets = record {
  slot_data_size = 1024;
  rd_min = 0;
  rd_max = 0;
  rd_rng = pos 0;
  readable = pos 0;
  wr_min = 0;
  wr_max = 4;
  wr_rng = pos 0;
  available = pos 4;
  outstanding = pos 0;
  rd_seq = 0;
  wr_seq = 0;
  slot_count_log2 = 2;
  slot_count = 4;
  seq_mask = 3;
  slot_size = 1048;
  slots = λ i. record { len = 1024; buff = packet rdy 0; valid = false };
}

new-no_packets : new (pos 1024) (pos 2) true true (packet rdy 0) ≡ some no_packets
unfolding new
new-no_packets = refl

pub no_packets-IsValid : IsValid no_packets
no_packets-IsValid = (new-IsValid 1024 2 (packet rdy 0) new-no_packets).0

-- Packet `n`, in the state given, put in the slot of its number.
abbrev with_packet : Cq PBuff → TxState → ℕ → Cq PBuff
with_packet cq state n = (commit_slot (write_buff cq n (packet state n)) (pos n) 200).1

with_packet-IsValid :
    (cq : Cq PBuff) (state : TxState) (n : ℕ) → IsValid cq → IsValid (with_packet cq state n)
with_packet-IsValid cq state n v =
    commit_slot-IsValid (write_buff cq n (packet state n)) (pos n) 200
      (write_buff-IsValid cq n (packet state n) v)

abbrev pub one_waiting : Cq PBuff
one_waiting = with_packet no_packets rdy 0

pub one_waiting-IsValid : IsValid one_waiting
one_waiting-IsValid = with_packet-IsValid no_packets rdy 0 no_packets-IsValid

abbrev pub one_sending : Cq PBuff
one_sending = with_packet no_packets now 0

pub one_sending-IsValid : IsValid one_sending
one_sending-IsValid = with_packet-IsValid no_packets now 0 no_packets-IsValid

-- Three packets, the first to be dropped and the second acknowledged already.
abbrev three_packets : Cq PBuff
three_packets = with_packet (with_packet (with_packet no_packets drp 0) rdy 1) rdy 2

abbrev gap : Cq PBuff
gap = (release_slot three_packets (pos 1)).1

gap-IsValid : IsValid gap
gap-IsValid = release_slot-IsValid three_packets (pos 1) (
    with_packet-IsValid (with_packet (with_packet no_packets drp 0) rdy 1) rdy 2 (
      with_packet-IsValid (with_packet no_packets drp 0) rdy 1
        (with_packet-IsValid no_packets drp 0 no_packets-IsValid)))

-- A clock that ticks once at every reading, and a card that sends everything.
abbrev pub ticks : ℕ → ℕ × ℕ
ticks t = (t, t + 1)

abbrev pub card : ℕ → PBuff → ℤ × ℕ × ℕ
card t p = (pos p.msg_size, t, t + 1)

do_etcp_net_tx-ends_example :
    (r : EtcpError × Cq PBuff × ℕ) × (do_etcp_net_tx ticks card 5 one_sending (pos 4) 100 ≡ some r)
    × IsValid r.1
    × (r.1.wr_seq ≡ one_sending.wr_seq)
    × (one_sending.rd_seq ≤ r.1.rd_seq)
unfolding commit_slot get adv_wr_seq scan_wr
do_etcp_net_tx-ends_example =
    do_etcp_net_tx-ends ticks card 5 one_sending (pos 4) 100 one_sending-IsValid (omega arith)

do_etcp_net_tx-skips_example :
    do_etcp_net_tx ticks card 2 gap (pos 4) 100
    ≡ some (ecqerr, (release_slot gap (pos gap.rd_seq)).1, 100)
unfolding commit_slot release_slot get adv_wr_seq scan_wr adv_rd_seq scan_rd ◌+ℤ◌ ◌-ℤ◌
do_etcp_net_tx-skips_example =
    do_etcp_net_tx-skips ticks card 0 gap (pos 4) 100 gap-IsValid (omega arith) refl refl
      (omega arith) (omega arith)

do_etcp_user_rx-Receives_example :
    Receives bytes 8 one_waiting (do_etcp_user_rx 3 one_waiting bytes 8)
unfolding commit_slot get adv_wr_seq scan_wr
do_etcp_user_rx-Receives_example =
    do_etcp_user_rx-Receives 3 one_waiting bytes 8 one_waiting-IsValid (omega arith)

process_ack-Acks_example : Acks one_waiting 0 (process_ack one_waiting 0)
process_ack-Acks_example = process_ack-Acks one_waiting 0 one_waiting-IsValid

abbrev no_stale : Ll PBuff
no_stale = record { slot_data_size = 1024; slot_count = pos 0; slot_size = 1056; slots = [] }

abbrev pub conn : Conn
conn = record {
  flow_id = record { dst_port = 2; src_port = 1; dst_addr = 20; src_addr = 10 };
  rx_q = no_packets;
  tx_q = no_packets;
  stale_q = no_stale;
  last_tx_idx = 0;
  seq_ack = pos 0;
  seq_snd = 0;
  vlan = negsuc 0;
  priority = pos 0;
}

do_etcp_user_tx-ends_example :
    (r : EtcpError × ℕ × Conn × ℕ) × (do_etcp_user_tx ticks 101 conn bytes 100 0 ≡ some r)
    × IsValid r.2.tx_q
do_etcp_user_tx-ends_example =
    do_etcp_user_tx-ends ticks 101 conn bytes 100 0 no_packets-IsValid (omega arith) (omega arith)

-- Copies of packets that take the whole buffer.
abbrev pub whole_packets : Buffer PBuff
whole_packets = record { copy = λ dst src n. src; copy-copy = λ a b c n. refl }

mk_eth_pkt-plain : mk_eth_pkt (1024 - 8) conn.vlan ≡ ok 14
unfolding mk_eth_pkt
mk_eth_pkt-plain = refl

do_etcp_user_tx-whole_example :
    (after : Conn) × (do_etcp_user_tx ticks 2 conn bytes 100 0 ≡ some (enoerr, 100, after, 1))
    × HoldsMessage conn bytes 100 186 (after.tx_q.slots 0)
    × (after.seq_snd ≡ 1)
do_etcp_user_tx-whole_example =
    do_etcp_user_tx-whole ticks 0 conn bytes 100 14 0 no_packets-IsValid (omega arith)
      mk_eth_pkt-plain (omega arith) (omega arith) (omega arith)
