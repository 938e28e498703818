-- ===== src/Api.antt =====
-- The calls of src/etcpSockApi.c that move data: what they share, and `etcpClose`. `etcpSend`,
-- `etcpAccept` and `etcpRecv` are in modules of their own.
-- The callbacks for transmission control are parameters on the same state `W` as the card and the
-- clock. A call has no result where it reads through NULL or a freed pointer, or where fuel runs
-- out.
pub mod Send
pub mod Recv
use etcp.Base.{
  ℕ, ◌+◌, ◌-◌, ◌^◌, Bool, true, false, ◌&&◌, ◌||◌, Option, none, some, ℤ, pos, pos_part, ltb_ℤ,
  leb_ℤ, ◌==◌, if◌then◌else◌, Bytes, update, ◌>>=◌, Buffer,
}
use etcp.CircularQueue.{Cq}
use etcp.CircularQueue.Slots.{pull_next, release_slot}
use etcp.LinkedList.{Ll}
use etcp.HashTable.{HtKey}
use etcp.NetRx.{EthFrame, do_etcp_net_rx}
use etcp.Packet.{EtcpError, enoerr, ecqerr, etryagain, ewrongsock, PBuff, SackHdr}
use etcp.Conn.{Conn}
use etcp.NetTx.{do_etcp_net_tx}
use etcp.UserTx.{do_etcp_user_tx, is_enoerr}
use etcp.UserRx.{do_etcp_user_rx, released_code}
use etcp.Sack.{generate_acks}
use etcp.Sack.Stale.{generate_stale_acks}
use etcp.State.{Socket, Store}
use etcp.Socket.{is_sr, is_la, sizeof_pointer, etcp_socke_delete}

-- The store with another connection behind a pointer.
abbrev pub with_conn_at : Store → ℕ → Conn → Store
with_conn_at st c conn = record st { conns = update st.conns c (some conn) }

-- A negative limit stands for the greatest.
abbrev pub limit : ℤ → ℤ → ℤ
limit n greatest = if ltb_ℤ n (pos 0) then greatest else n

abbrev pub int64_max : ℤ
int64_max = pos (2 ^ 63 - 1)

-- `readable == 0`.
abbrev pub is_zero : ℤ → Bool
is_zero n = leb_ℤ n (pos 0) && leb_ℤ (pos 0) n

-- `etcpClose`.
unfoldable pub etcp_close : Store → Option Socket → Option Store
etcp_close st none = some st
etcp_close st (some sock) = etcp_socke_delete st sock
