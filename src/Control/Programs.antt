-- ===== src/Control/Programs.antt =====
-- The client and the server of src/test.c, on what a program's user supplies.
-- The loops that wait for a connection and for data have no bound in the code: they run on fuel,
-- which is also that of the calls. A socket that could not be made is NULL, and the call that reads
-- it has no result.
use etcp.Base.{
  ℕ, zero, suc, ◌+◌, ◌%◌, Bool, true, false, Option, none, some, ℤ, pos, negsuc, if◌then◌else◌,
  Bytes, ◌>>=◌, Buffer,
}
use etcp.Packet.{EtcpError}
use etcp.Conn.{FlowId}
use etcp.Sack.{succeeds}
use etcp.NetRx.{is_etryagain}
use etcp.State.{Store, Socket}
use etcp.Socket.{etcp_socket_new, etcp_connect, etcp_bind, etcp_listen}
use etcp.Api.{etcp_close}
use etcp.Api.Send.{etcp_send}
use etcp.Api.Recv.{etcp_accept, etcp_recv}
use etcp.HashTable.{HtKey}
use etcp.CircularQueue.{Cq}
use etcp.LinkedList.{Ll}
use etcp.NetRx.{EthFrame}
use etcp.Packet.{PBuff, SackHdr}
use etcp.Api.Send.{Queues, TxTc}
use etcp.Api.Recv.{RxTc}

-- What the program's user supplies: the card, the clock, transmission control, the hash and memory.
pub record World (W : Type 0) : Type 0 where
  pub copies : Buffer PBuff
  pub pointers : Buffer (Option ℕ)
  pub as_buffer : SackHdr → PBuff
  pub hash64 : HtKey → ℕ
  pub granted : ℕ → Bool
  pub zeroed : PBuff
  pub clock : W → ℕ × W
  pub eth_hw_rx : W → ℤ × EthFrame × ℕ × W
  pub eth_hw_tx : W → PBuff → ℤ × ℕ × W
  pub rx_tc : W → Cq PBuff → Ll PBuff → Cq PBuff → RxTc × W
  pub tx_tc : W → Queues → Option (TxTc × W)

-- The bytes that the client sends, and zeros.
abbrev pub client_dat : Bytes
client_dat i = (170 + i) % 256

abbrev pub zero_dat : Bytes
zero_dat i = 0

abbrev pub client_flow : FlowId
client_flow = record { dst_port = 14; src_port = 15; dst_addr = 2; src_addr = 1 }

-- The address that the server binds; it names no source.
abbrev pub server_flow : FlowId
server_flow = record { dst_port = 14; src_port = 0; dst_addr = 2; src_addr = 0 }

-- `calloc` was called once more.
abbrev pub with_calloc : Store → Store
with_calloc st = record st { callocs = st.callocs + 1 }

module _ {W : Type 0} (o : World W) where
  -- The calls on this world.
  abbrev pub send_call :
      ℕ → Store → Socket → Option Bytes → ℤ → W → Option (EtcpError × ℤ × Store × W)
  send_call = etcp_send o.clock o.eth_hw_tx o.tx_tc

  abbrev pub recv_call : ℕ → Store → Socket → Bytes → ℕ → W → Option (EtcpError × Bytes × Store × W)
  recv_call =
      etcp_recv ⦃b = o.copies⦄ o.as_buffer o.hash64 o.granted o.zeroed o.clock o.eth_hw_rx o.rx_tc

  abbrev pub accept_call :
      ℕ → Store → Socket → Option ℕ → W → Option (EtcpError × Option ℕ × Store × W)
  accept_call =
      etcp_accept ⦃b = o.copies⦄ o.as_buffer o.hash64 o.granted o.zeroed o.clock o.eth_hw_rx
        ⦃s = o.pointers⦄

  -- The client's turns: a message is sent, and frames are received.
  unfoldable pub client_loop : ℕ → ℕ → Socket → Store → W → Option (Store × W)
  client_loop zero fuel sock st w = some (st, w)
  client_loop (suc left) fuel sock st w = do
    sent ← send_call fuel st sock (some client_dat) (pos 128) w
    heard ← recv_call fuel sent.2 sock zero_dat 0 sent.3
    client_loop left fuel sock heard.2 heard.3

  -- `etcptpTestClient`, for a number of turns.
  unfoldable pub client : ℕ → ℕ → Store → W → Option (Store × W)
  client turns fuel st w = do
    sock ← etcp_socket_new (o.granted st.callocs)
    made ←
        etcp_connect o.hash64 o.granted o.zeroed (with_calloc st) sock 2 2048 client_flow true
          (negsuc 0) (negsuc 0)
    ran ← client_loop turns fuel made.2 made.1 w
    closed ← etcp_close ran.0 (some made.2)
    some (closed, ran.1)

  -- The server waits for a connection; `out` is `accSock`.
  unfoldable pub accept_loop :
      ℕ → Socket → Option ℕ → Store → W → Option (EtcpError × Option ℕ × Store × W)
  accept_loop zero sock out st w = none
  accept_loop (suc fuel) sock out st w = do
    r ← accept_call fuel st sock out w
    let rest = accept_loop fuel sock r.1 r.2 r.3
    if is_etryagain r.0 then rest else some r

  -- It waits for data on the accepted socket at `acc`.
  unfoldable pub receive_loop : ℕ → ℕ → Bytes → Store → W → Option (EtcpError × Bytes × Store × W)
  receive_loop zero acc dat st w = none
  receive_loop (suc fuel) acc dat st w = do
    sock ← st.socks acc
    sent ← send_call fuel st sock none (pos 0) w
    r ← recv_call fuel sent.2 sock dat 128 sent.3
    let rest = receive_loop fuel acc r.1 r.2 r.3
    if is_etryagain r.0 then rest else some r

  -- The messages that it takes, each acknowledged by a call of `etcpSend`, until an error: whether
  -- there was none.
  unfoldable pub serve : ℕ → ℕ → ℕ → Store → W → Option (Bool × Store × W)
  serve zero fuel acc st w = some (true, st, w)
  serve (suc left) fuel acc st w = do
    r ← receive_loop fuel acc zero_dat st w
    let rest : Option (Bool × Store × W) = (do
      sock ← r.2.socks acc
      sent ← send_call fuel r.2 sock none (pos 0) r.3
      serve left fuel acc sent.2 sent.3)
    if succeeds r.0 then rest else some (false, r.2, r.3)

  -- `etcptpTestServer`, for a number of messages: what it returns, and the state.
  unfoldable pub server : ℕ → ℕ → Store → W → Option (ℤ × Store × W)
  server messages fuel st w = do
    sock ← etcp_socket_new (o.granted st.callocs)
    let bound =
        etcp_bind o.hash64 o.granted (with_calloc st) sock 2 2048 server_flow (negsuc 0) (negsuc 0)
    listening ← etcp_listen o.granted bound.1 bound.2 2
    r ← accept_loop fuel bound.2 none listening.1 w
    let served : Option (ℤ × Store × W) = (do
      acc ← r.1
      ran ← serve messages fuel acc r.2 r.3
      closed ← etcp_close ran.1 (some bound.2)
      if ran.0 then some (pos 0, closed, ran.2) else some (negsuc 0, ran.1, ran.2))
    if succeeds r.0 then served else some (negsuc 0, r.2, r.3)
