-- ===== src/Packet.antt =====
-- src/packets.h and the error codes of src/types.h: what a slot of a packet queue holds. The
-- headers lie in the slot's buffer, where `pBuff_t` points; here they are fields of `PBuff`, which
-- leaves out the pointers and the sizes that are constants. The union of the data and the
-- acknowledgement header is two fields, of which a packet has the one that its type says.
use etcp.Base.{ℕ, ◌+◌, ◌-◌, ◌/◌, Bool, List, ℤ, Bytes}

-- `etcpError_t`.
pub data EtcpError : Type 0 where
  enoerr enomem ebadpkt ealready etoomany enotconn ecqerr ehterr erange etoobig etryagain :
      EtcpError
  ewrongsock efatal erejconn : EtcpError

-- `etcpTime_t`, in nanoseconds.
pub record Time : Type 0 where
  pub sw_tx_time_ns : ℕ
  pub hw_tx_time_ns : ℕ
  pub hw_rx_time_ns : ℕ
  pub sw_rx_time_ns : ℕ

-- `etcpSackField_t`, two 32-bit numbers.
pub record SackField : Type 0 where
  pub offset : ℕ
  pub count : ℕ

-- `etcpMsgSackHdr_t` and the fields behind it.
pub record SackHdr : Type 0 where
  pub sack_base_seq : ℤ
  pub sack_count : ℕ
  pub time_first : Time
  pub time_last : Time
  pub fields : List SackField

-- `etcpMsgDatHdr_t`.
pub record DatHdr : Type 0 where
  pub seq_num : ℕ
  pub dat_len : ℕ
  pub tx_attempts : ℕ
  pub no_ack : Bool
  pub no_ret : Bool
  pub ack_sent : Bool
  pub stale_dat : Bool

-- `etcpMsgType_t`, the 8 bits of a header that say what follows it.
abbrev pub etcp_dat : ℕ
etcp_dat = 3

abbrev pub etcp_ack : ℕ
etcp_ack = 4

-- `etcpMsgHead_t`.
pub record MsgHead : Type 0 where
  pub type : ℕ
  pub ver : ℕ
  pub magic : ℕ
  pub hw_tx_ts : Bool
  pub hw_rx_ts : Bool
  pub sw_tx_ts : Bool
  pub sw_rx_ts : Bool
  pub src_port : ℕ
  pub dst_port : ℕ
  pub ts : Time

-- The sizes of the headers in bytes.
abbrev pub sizeof_msg_head : ℕ
sizeof_msg_head = 56

abbrev pub sizeof_dat_hdr : ℕ
sizeof_dat_hdr = 16

abbrev pub sizeof_sack_hdr : ℕ
sizeof_sack_hdr = 80

abbrev pub sizeof_sack_field : ℕ
sizeof_sack_field = 8

abbrev pub sizeof_pbuff : ℕ
sizeof_pbuff = 96

-- `ETCP_MAX_SACKS`: what is left of 256 bytes, 20 of them for Ethernet.
abbrev pub etcp_max_sacks : ℕ
etcp_max_sacks = (256 - (14 + 4 + 2) - (sizeof_msg_head + sizeof_sack_hdr)) / sizeof_sack_field

-- `txState_t`.
pub data TxState : Type 0 where
  rdy now drp : TxState

-- `pBuff_t`, with the bytes of its payload.
pub record PBuff : Type 0 where
  pub tx_state : TxState
  pub buff_size : ℕ
  pub msg_size : ℕ
  pub encap_hdr_size : ℕ
  pub etcp_hdr : MsgHead
  pub etcp_dat_hdr : DatHdr
  pub etcp_sack_hdr : SackHdr
  pub payload : Bytes
