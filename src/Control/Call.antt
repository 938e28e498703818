-- ===== src/Control/Call.antt =====
-- `etcpSend` of src/etcpSockApi.c with the transmission control of src/test.c, for a socket that only
-- sends: the user's message goes to the card.
use etcp.Base.{ℕ, ◌-◌, ℤ, Bytes}
use etcp.CircularQueue.{Slot}
use etcp.CircularQueue.Window.{slot_of}
use etcp.Packet.{PBuff, now}
use etcp.Conn.{Conn}
use etcp.State.{Store, Socket}
use etcp.UserTx.{dat_packet}

module _ {W : Type 0} (clock : W → ℕ × W) (eth_hw_tx : W → PBuff → ℤ × ℕ × W) (st : Store)
    (sock : Socket) (c : ℕ) (conn : Conn) where
  -- The slot that is written, and the packet that `doEtcpUserTx` makes there and `etcpTxTc` marks.
  abbrev slot : Slot PBuff
  slot = slot_of conn.tx_q conn.tx_q.wr_seq

  abbrev made : Bytes → ℕ → ℕ → W → PBuff
  made src n eth_len w = dat_packet conn slot.buff (slot.len - 8) eth_len n (clock w).0 src

  abbrev pub marked : Bytes → ℕ → ℕ → W → PBuff
  marked src n eth_len w = record (made src n eth_len w) { tx_state = now }
