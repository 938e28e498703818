-- ===== src/Socket/Fresh.antt =====
-- `etcpConnNew` of src/etcpConn.c where memory is found: the connection that is made for a flow.
use etcp.Base.{ℕ, ◌+◌, ◌-◌, ◌%◌, ◌^◌, ◌<◌, ◌≡◌, refl, true, false, some, ℤ, pos, [], ltb_ℤ, arith}
use etcp.CircularQueue.{Cq, round_up, sizeof_slot}
use etcp.CircularQueue
use etcp.LinkedList.{sizeof_ll_slot}
use etcp.LinkedList
use etcp.Packet.{PBuff}
use etcp.Conn.{Conn, FlowId, conn_new}
use etcp.State.{int_32}

-- What a new connection keeps of a flow: the ports and the address of the source in 32 bits.
abbrev pub narrowed : FlowId → FlowId
narrowed flow = record flow {
  dst_port = flow.dst_port % 2 ^ 32;
  src_port = flow.src_port % 2 ^ 32;
  src_addr = flow.src_addr % 2 ^ 32;
}

-- A queue that was just made, with slots of `size` bytes.
abbrev pub fresh_queue : PBuff → ℕ → ℕ → Cq PBuff
fresh_queue zeroed window_log2 size = record {
  slot_data_size = size;
  rd_min = 0;
  rd_max = 0;
  rd_rng = pos 0;
  readable = pos 0;
  wr_min = 0;
  wr_max = 0 + 2 ^ window_log2;
  wr_rng = pos 0;
  available = pos (2 ^ window_log2);
  outstanding = pos 0;
  rd_seq = 0;
  wr_seq = 0;
  slot_count_log2 = window_log2;
  slot_count = 2 ^ window_log2;
  seq_mask = 2 ^ window_log2 - 1;
  slot_size = round_up (size + sizeof_slot);
  slots = λ i. record { len = size; buff = zeroed; valid = false };
}

-- A connection that was just made for a flow, with slots of `size` bytes.
abbrev pub fresh_conn : PBuff → ℕ → ℕ → FlowId → ℤ → ℤ → Conn
fresh_conn zeroed window_log2 size flow vlan priority = record {
  flow_id = flow;
  rx_q = fresh_queue zeroed window_log2 size;
  tx_q = fresh_queue zeroed window_log2 size;
  stale_q = record {
    slot_data_size = size;
    slot_count = pos 0;
    slot_size = round_up (size + sizeof_ll_slot);
    slots = [];
  };
  last_tx_idx = 0;
  seq_ack = pos 0;
  seq_snd = 0;
  vlan = vlan;
  priority = priority;
}

new-fresh :
    (zeroed : PBuff) (window_log2 size : ℕ)
    → CircularQueue.new (pos size) (pos window_log2) true true zeroed
      ≡ some (fresh_queue zeroed window_log2 size)
unfolding CircularQueue.new
new-fresh zeroed window_log2 size =
    let positive : (n : ℕ) → ltb_ℤ (pos n) (pos 0) ≡ false = λ n. ground arith in
    rw (positive size, positive window_log2) refl

pub conn_new-fresh :
    (zeroed : PBuff) (window_log2 size : ℕ) (flow : FlowId) (vlan : ℤ) (priority : ℤ)
    → conn_new true
        (true, true)
        (true, true)
        true
        zeroed
        (pos window_log2)
        (pos size)
        flow
        vlan
        priority
      ≡ some (fresh_conn zeroed window_log2 size flow vlan priority)
unfolding conn_new LinkedList.new
conn_new-fresh zeroed window_log2 size flow vlan priority =
    rw (new-fresh zeroed window_log2 size, conn_new)
      (rw (new-fresh zeroed window_log2 size, conn_new) refl)

pub int_32_small : (n : ℕ) → n < 2 ^ 31 → int_32 n ≡ pos n
int_32_small n small = ground arith
