-- ===== src/Conn.antt =====
-- src/etcpConn.h and src/etcpConn.c: a connection, its queues, and how it is made.
-- The pointer back to the global state is left out. The narrow integers of the flow are the numbers
-- that the caller gives after their conversion.
use etcp.Base.{
  ℕ, Bool, Option, none, some, ℤ, pos, pos_part, if◌then◌else◌, ltb, ◌+◌, ◌-◌, ◌%◌, ◌^◌,
}
use etcp.CircularQueue
use etcp.CircularQueue.{Cq}
use etcp.LinkedList
use etcp.LinkedList.{Ll}
use etcp.Packet.{PBuff}

-- `etcpFlowId_t`.
pub record FlowId : Type 0 where
  pub dst_port : ℕ
  pub src_port : ℕ
  pub dst_addr : ℕ
  pub src_addr : ℕ

-- A 32-bit port as the 64-bit number that a key takes from it.
abbrev pub sign_extended : ℕ → ℕ
sign_extended n = let low = n % 2 ^ 32 in if ltb low (2 ^ 31) then low else low + (2 ^ 64 - 2 ^ 32)

-- `etcpConn_t`.
pub record Conn : Type 0 where
  pub flow_id : FlowId
  pub rx_q : Cq PBuff
  pub tx_q : Cq PBuff
  pub stale_q : Ll PBuff
  pub last_tx_idx : ℕ
  pub seq_ack : ℤ
  pub seq_snd : ℕ
  pub vlan : ℤ
  pub priority : ℤ

-- `etcpConnNew`. The Booleans tell whether the calls of calloc succeed, in their order; `zeroed` is
-- a packet buffer of zero bytes. A negative size is refused by the first queue.
unfoldable pub conn_new :
    Bool → Bool × Bool → Bool × Bool → Bool → PBuff → ℤ → ℤ → FlowId → ℤ → ℤ → Option Conn
conn_new got_conn got_rx got_tx got_stale zeroed log2 size flow vlan priority =
    if got_conn
    then (elim (CircularQueue.new {A = PBuff} size log2 got_rx.0 got_rx.1 zeroed) [
      | none ↦ none
      | some rx ↦ elim (CircularQueue.new {A = PBuff} size log2 got_tx.0 got_tx.1 zeroed) [
        | none ↦ none
        | some tx ↦ elim (LinkedList.new {A = PBuff} (pos_part size) got_stale) [
          | none ↦ none
          | some stale ↦ some (record {
            flow_id = flow;
            rx_q = rx;
            tx_q = tx;
            stale_q = stale;
            last_tx_idx = 0;
            seq_ack = pos 0;
            seq_snd = 0;
            vlan = vlan;
            priority = priority;
          })
        ]
      ]
    ])
    else none
