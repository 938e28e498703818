-- ===== src/Accept/First.antt =====
-- The first packet of a flow and the next `etcpAccept`: src/etcpSockApi.c.
use etcp.Base.{
  ℕ, ◌+◌, ◌%◌, ◌^◌, ◌≤◌, ◌<◌, ◌≡◌, refl, ap, ◌∙◌, Bool, true, false, Option, none, some, ℤ, pos,
  leb_ℤ, if◌then◌else◌, arith, update, Buffer, ==_refl, [],
}
use etcp.CircularQueue.{Cq}
use etcp.CircularQueue.Slots.{commit_slot, release_slot, write_buff}
use etcp.CircularQueue.Window.{IsValid, slot_of, slot_count_pos}
use etcp.CircularQueue.Next.{get_next_wr-free, write-commit}
use etcp.HashTable
use etcp.HashTable.{HtKey, add_new}
use etcp.HashTable.Change.{bucket}
use etcp.Packet.{enoerr, PBuff, SackHdr}
use etcp.Conn.{FlowId}
use etcp.State.{la_of, Store, Socket, LaMap, etcpsock_sr, etcpsock_la}
use etcp.Socket.{sizeof_pointer, fresh_socket, with_narrow_ports, dst_key, src_key}
use etcp.Socket.Fresh.{narrowed, fresh_conn}
use etcp.Socket.Placed.{Reaches, add_new-found, placed, with_fresh_conn, connect_in-Reaches}
use etcp.Socket.Mapping.{add_conn_mapping-mapped}
use etcp.NewConn.{add_return, add_accept_sock, add_new_conn}
use etcp.Api.Recv.{etcp_accept}
use etcp.NetRx.{EthFrame}
use etcp.Accept.{
  dequeue-first, queued, enqueue-free, etcp_accept-dequeues, with_listen_q-held, accept_sock,
}

module _ (hash64 : HtKey → ℕ) (granted : ℕ → Bool) (all : (n : ℕ) → granted n ≡ true)
    (zeroed : PBuff) (st : Store) (m : ℕ) (map : LaMap) (cq : Cq (Option ℕ)) (flow : FlowId) where
  abbrev ports : FlowId
  ports = with_narrow_ports flow

  -- The connection's number, its map, and the store with it.
  abbrev c : ℕ
  c = st.callocs + 1

  abbrev linked : LaMap
  linked = record map { table = (add_new hash64 true map.table (src_key ports) c).1 }

  abbrev connected : Store
  connected =
      placed hash64 granted all
        (with_fresh_conn hash64 granted all zeroed (record st { callocs = c })
          map.listen_window_size_log2 map.listen_buff_size ports map.vlan map.priority)
        m map ports c

  add_new_conn-queues :
      st.maps m ≡ some map
      → map.listen_q ≡ some cq
      → IsValid cq
      → cq.wr_seq < cq.rd_seq + cq.slot_count
      → sizeof_pointer ≤ (slot_of cq cq.wr_seq).len
      → map.listen_buff_size < 2 ^ 31
      → (HashTable.get hash64 st.state.dst_map (dst_key ports)).1 ≡ some m
      → bucket hash64 map.table (src_key ports) ≡ []
      → add_new_conn hash64 granted zeroed st m flow false
        ≡ some (enoerr, queued connected m linked cq st.callocs (accept_sock c), some c, none)
  unfolding add_new_conn add_accept_sock add_return
  add_new_conn-queues held listening v space fits small found free =
      let sock = record fresh_socket { type = etcpsock_sr } in
      let next = get_next_wr-free cq v.shape space (v.frontier space) in
      let mapping =
        add_conn_mapping-mapped hash64 granted all zeroed (record st { callocs = c }) sock m
          map.listen_window_size_log2 map.listen_buff_size ports false map.vlan map.priority refl
          found in
      let (made, _, _) =
        connect_in-Reaches hash64 granted all zeroed (record st { callocs = c }) sock m map
          map.listen_window_size_log2 map.listen_buff_size ports false map.vlan map.priority small
          found held free in
      let same = record linked { listen_q = some cq } in
      let store = record connected { maps = update st.maps m (some same) } in
      let there : store.maps m ≡ some same =
        ap (λ b. if b then some same else st.maps m) (==_refl m) in
      let queue = enqueue-free store m same cq st.callocs (accept_sock c) there refl v space fits in
      rw (held, add_new_conn) (simp (listening, next, all st.callocs, mapping, made) queue)

  -- The queue with the socket in it, and without.
  abbrev waiting : Cq (Option ℕ)
  waiting =
      (commit_slot (write_buff cq (cq.wr_seq % cq.slot_count) (some st.callocs)) (pos cq.wr_seq)
        sizeof_pointer).1

  abbrev listening_map : Cq (Option ℕ) → LaMap
  listening_map q = record linked { listen_q = some q }

  abbrev queued_store : Store
  queued_store = queued connected m linked cq st.callocs (accept_sock c)

  abbrev after_accept : Store
  after_accept = record queued_store {
    maps =
        update queued_store.maps m
          (some (listening_map (release_slot waiting (pos waiting.rd_seq)).1));
  }

  after_accept-Reaches :
      (HashTable.get hash64 st.state.dst_map (dst_key ports)).1 ≡ some m
      → bucket hash64 map.table (src_key ports) ≡ []
      → Reaches hash64 after_accept ports c
  after_accept-Reaches found free =
      let here = listening_map (release_slot waiting (pos waiting.rd_seq)).1 in
      record {
        at = m;
        map = here;
        destination = found;
        held = ap (λ b. if b then some here else queued_store.maps m) (==_refl m);
        source = (add_new-found hash64 map.table (src_key ports) c free).1;
      }

  module _ ⦃s : Buffer (Option ℕ)⦄ ⦃b : Buffer PBuff⦄ (as_buffer : SackHdr → PBuff) {W : Type 0}
      (clock : W → ℕ × W) (eth_hw_rx : W → ℤ × EthFrame × ℕ × W) where
    etcp_accept-queued :
        (fuel : ℕ) (sock : Socket) (out : Option ℕ) (w : W)
        → ((old new : Option ℕ) → s.copy old new sizeof_pointer ≡ new)
        → st.state.event_triggered_rx ≡ false
        → sock.type ≡ etcpsock_la
        → la_of sock ≡ some m
        → IsValid cq
        → cq.rd_seq ≡ cq.wr_seq
        → leb_ℤ (pos 0) cq.readable ≡ true
        → sizeof_pointer ≤ (slot_of cq cq.wr_seq).len
        → etcp_accept as_buffer hash64 granted zeroed clock eth_hw_rx fuel queued_store sock out w
          ≡ some (enoerr, some st.callocs, after_accept, w)
    etcp_accept-queued fuel sock out w whole quiet la mine v nothing counted fits =
        let here = listening_map waiting in
        let there : queued_store.maps m ≡ some here =
          ap (λ b. if b then some here else connected.maps m) (==_refl m) in
        let taken = dequeue-first queued_store sock cq out st.callocs whole nothing counted (
          write-commit cq (some st.callocs) sizeof_pointer v
            (omega (arith, nothing, slot_count_pos v.shape)) fits) in
        let left =
          with_listen_q-held queued_store (la_of sock) m here
            (release_slot waiting (pos waiting.rd_seq)).1 mine there in
        etcp_accept-dequeues hash64 granted zeroed as_buffer clock eth_hw_rx fuel queued_store sock
          out w m here waiting quiet la mine there refl
        ∙ ap (λ t. some (t.0, t.1, t.2, w)) taken
        ∙ ap (λ t. some (enoerr, some st.callocs, t, w)) left

    -- Where memory is found and a copied pointer is the pointer: a packet of a new flow, which wants
    -- packets back, for a destination whose listening queue is well formed and empty, with slots
    -- that hold a pointer and buffers below 2 ^ 31 bytes, and with nothing in the bucket of the
    -- flow's source, makes `addNewConn` succeed, with a connection to receive on and none to send
    -- on. The next `etcpAccept` of the listening socket, where receiving is not triggered by events,
    -- answers etcpENOERR and the new socket, which has that connection; the lookups for the flow
    -- lead to it, and its queues are new.
    pub add_new_conn-accept :
        (fuel : ℕ) (sock : Socket) (out : Option ℕ) (w : W)
        → ((old new : Option ℕ) → s.copy old new sizeof_pointer ≡ new)
        → st.state.event_triggered_rx ≡ false
        → sock.type ≡ etcpsock_la
        → la_of sock ≡ some m
        → st.maps m ≡ some map
        → map.listen_q ≡ some cq
        → map.listen_buff_size < 2 ^ 31
        → IsValid cq
        → cq.rd_seq ≡ cq.wr_seq
        → leb_ℤ (pos 0) cq.readable ≡ true
        → sizeof_pointer ≤ (slot_of cq cq.wr_seq).len
        → (HashTable.get hash64 st.state.dst_map (dst_key ports)).1 ≡ some m
        → bucket hash64 map.table (src_key ports) ≡ []
        → (queued after : Store) × (add_new_conn hash64 granted zeroed st m flow false
            ≡ some (enoerr, queued, some c, none))
          × (etcp_accept as_buffer hash64 granted zeroed clock eth_hw_rx fuel queued sock out w
              ≡ some (enoerr, some st.callocs, after, w))
          × (after.socks st.callocs ≡ some (accept_sock c))
          × Reaches hash64 after ports c
          × (after.conns c
              ≡ some (
                  fresh_conn zeroed map.listen_window_size_log2 map.listen_buff_size
                    (narrowed ports)
                    map.vlan
                    map.priority))
    add_new_conn-accept fuel sock out w whole quiet la mine held listening small v nothing counted
          fits found free =
        (
          queued_store,
          after_accept,
          add_new_conn-queues held listening v (omega (arith, nothing, slot_count_pos v.shape)) fits
              small found free,
          etcp_accept-queued fuel sock out w whole quiet la mine v nothing counted fits,
          ap (λ b. if b then some (accept_sock c) else st.socks st.callocs) (==_refl st.callocs),
          after_accept-Reaches found free,
          ap
              (λ b.
                if b
                then some (
                    fresh_conn zeroed map.listen_window_size_log2 map.listen_buff_size
                      (narrowed ports) map.vlan map.priority)
                else st.conns c)
              (==_refl c),
        )
