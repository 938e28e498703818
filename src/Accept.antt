-- ===== src/Accept.antt =====
-- A connection from its first packet to the program that waits for it: `addNewConn` and then
-- `etcpAccept` of src/etcpSockApi.c.
pub mod First
use etcp.Base.{
  ℕ, ◌+◌, ◌%◌, ◌^◌, ◌≤◌, ◌<◌, ◌≡◌, refl, sym, ap, subst, ◌∙◌, Bool, true, false, Option, none, some,
  ℤ, more-than-none, pos, ◌+ℤ◌, leb_ℤ, ◌&&◌, if◌then◌else◌, arith, update, Buffer, ==_refl, ok, [],
}
use etcp.CircularQueue.{Cq, CqError}
use etcp.CircularQueue.Slots.{commit_slot, release_slot, pull, pull_next, write_buff}
use etcp.CircularQueue.Window.{IsValid, slot_of, slot_count_pos}
use etcp.CircularQueue.Outcomes.{release_moves, release_slot-Releases}
use etcp.CircularQueue.Copy.{pull_run}
use etcp.CircularQueue.Next.{get_next_wr-free, write-commit, Committed, Committed-slot}
use etcp.HashTable
use etcp.HashTable.{HtKey, add_new}
use etcp.HashTable.Change.{bucket}
use etcp.Packet.{EtcpError, enoerr, PBuff, SackHdr}
use etcp.Conn.{FlowId}
use etcp.State.{Store, Socket, la_of, LaMap, etcpsock_sr, etcpsock_la}
use etcp.Socket.{sizeof_pointer, fresh_socket, with_narrow_ports, dst_key, src_key}
use etcp.Socket.Fresh.{narrowed, fresh_conn}
use etcp.Socket.Placed.{Reaches, add_new-found, placed, with_fresh_conn, connect_in-Reaches}
use etcp.Socket.Mapping.{add_conn_mapping-mapped}
use etcp.NewConn.{enqueue, add_return, add_accept_sock, add_new_conn}
use etcp.UserRx.{released_code}
use etcp.Api.{is_zero}
use etcp.Api.Recv.{dequeue, with_listen_q, listen_q_of, triggered_rx, etcp_accept}
use etcp.NetRx.{EthFrame}

-- The first socket in a queue is the one that `etcpAccept` takes out.
pub dequeue-first :
    ⦃b : Buffer (Option ℕ)⦄ (st : Store) (sock : Socket) (cq : Cq (Option ℕ)) (out : Option ℕ)
    (s : ℕ) {r : CqError × Cq (Option ℕ)}
    → ((old new : Option ℕ) → b.copy old new sizeof_pointer ≡ new)
    → cq.rd_seq ≡ cq.wr_seq
    → leb_ℤ (pos 0) cq.readable ≡ true
    → Committed cq (some s) sizeof_pointer r
    → dequeue st sock r.1 out
      ≡ (enoerr, some s, with_listen_q st (la_of sock) (release_slot r.1 (pos r.1.rd_seq)).1)
unfolding dequeue pull_next
dequeue-first ⦃b = b⦄ st sock cq out s {r} whole nothing counted c =
    let first : r.1.rd_seq ≡ cq.wr_seq = c.rd_seq ∙ nothing in
    let held : slot_of r.1 r.1.rd_seq
        ≡ record { len = sizeof_pointer; buff = some s; valid = true } =
      ap (slot_of r.1) first ∙ Committed-slot c in
    let shape = c.valid.shape in
    let pulled : pull r.1 out sizeof_pointer (pos r.1.rd_seq)
        ≡ (CqError.enoerr, some s, sizeof_pointer) =
      pull_run r.1 out sizeof_pointer r.1.rd_seq shape (omega arith)
        (omega (arith, slot_count_pos shape)) (ap (λ t. t.valid) held)
        (omega (arith, ap (λ t. t.len) held))
      ∙ ap (λ t. (CqError.enoerr, b.copy out t.buff sizeof_pointer, sizeof_pointer)) held
      ∙ ap (λ x. (CqError.enoerr, x, sizeof_pointer)) (whole out (some s)) in
    let (m, gt, f, run) =
      release_moves r.1 (slot_count_pos shape) (ap (λ t. t.valid) held)
        (release_slot-Releases r.1 (pos r.1.rd_seq) c.valid) in
    let readable : is_zero r.1.readable ≡ false =
      ap is_zero c.readable ∙ more-than-none cq.readable counted in
    rw (readable, dequeue)
      (rw (pulled, dequeue)
        (ap
          (λ e. (
            released_code e,
            some s,
            with_listen_q st (la_of sock) (release_slot r.1 (pos r.1.rd_seq)).1,
          ))
          (ap (λ q. q.0) run)))

-- The store with socket `s`, whose value is `sock`, put in the queue `cq` of the map `m`.
abbrev pub queued : Store → ℕ → LaMap → Cq (Option ℕ) → ℕ → Socket → Store
queued st m map cq s sock =
    let i = cq.wr_seq % cq.slot_count in
    let committed = commit_slot (write_buff cq i (some s)) (pos cq.wr_seq) sizeof_pointer in
    record st {
      maps = update st.maps m (some (record map { listen_q = some committed.1 }));
      socks = update st.socks s (some sock);
    }

pub enqueue-free :
    (st : Store) (m : ℕ) (map : LaMap) (cq : Cq (Option ℕ)) (s : ℕ) (sock : Socket)
    → st.maps m ≡ some map
    → map.listen_q ≡ some cq
    → IsValid cq
    → cq.wr_seq < cq.rd_seq + cq.slot_count
    → sizeof_pointer ≤ (slot_of cq cq.wr_seq).len
    → enqueue st m (cq.wr_seq % cq.slot_count) cq.wr_seq s sock
      ≡ some (enoerr, queued st m map cq s sock, sock.recv_conn, sock.send_conn)
unfolding enqueue
enqueue-free st m map cq s sock held listening v space fits =
    let made = write-commit cq (some s) sizeof_pointer v space fits in
    rw (held, enqueue) (rw (listening, enqueue) (rw (made.code) refl))

-- The listening queue of a map, put back.
pub with_listen_q-held :
    (store : Store) (la : Option ℕ) (m : ℕ) (here : LaMap) (q : Cq (Option ℕ))
    → la ≡ some m
    → store.maps m ≡ some here
    → with_listen_q store la q
      ≡ record store { maps = update store.maps m (some (record here { listen_q = some q })) }
unfolding with_listen_q
with_listen_q-held store la m here q mine held =
    rw (mine, with_listen_q) (rw (held, with_listen_q) refl)

-- What `etcpAccept` does where frames are not waited for: it takes from the socket's queue.
module _ (hash64 : HtKey → ℕ) (granted : ℕ → Bool) (zeroed : PBuff) ⦃s : Buffer (Option ℕ)⦄
    ⦃b : Buffer PBuff⦄ (as_buffer : SackHdr → PBuff) {W : Type 0} (clock : W → ℕ × W)
    (eth_hw_rx : W → ℤ × EthFrame × ℕ × W) where
  pub etcp_accept-dequeues :
      (fuel : ℕ) (st : Store) (sock : Socket) (out : Option ℕ) (w : W) (m : ℕ) (map : LaMap)
      (cq : Cq (Option ℕ))
      → st.state.event_triggered_rx ≡ false
      → sock.type ≡ etcpsock_la
      → la_of sock ≡ some m
      → st.maps m ≡ some map
      → map.listen_q ≡ some cq
      → let taken = dequeue st sock cq out in
        etcp_accept as_buffer hash64 granted zeroed clock eth_hw_rx fuel st sock out w
        ≡ some (taken.0, taken.1, taken.2, w)
  unfolding etcp_accept triggered_rx listen_q_of
  etcp_accept-dequeues fuel st sock out w m map cq quiet la mine held listening =
      simp (la, mine, held, listening, quiet) refl

-- The socket that `addNewConn` makes, with the connection `c`.
abbrev pub accept_sock : ℕ → Socket
accept_sock c = record fresh_socket { type = etcpsock_sr; recv_conn = some c }
