-- ===== src/Socket/Placed.antt =====
-- A connection placed in a map: `etcpConnNew` and the end of `addConnMapping` in src/etcpSockApi.c,
-- against the lookups that packets go through.
use etcp.Base.{
  ℕ, ◌+◌, ◌^◌, ◌<◌, ◌≡◌, refl, ap, ◌∙◌, Bool, true, some, ℤ, [], ==_refl, if◌then◌else◌, update, ok,
}
use etcp.HashTable.{HtKey, HtError, Ht, add_new}
use etcp.HashTable
use etcp.HashTable.Lookup.{same_key_refl}
use etcp.HashTable.Change.{bucket, add_new-get}
use etcp.Packet.{enoerr, PBuff}
use etcp.Conn.{FlowId}
use etcp.State.{Socket, Store, LaMap, conn_alloc}
use etcp.Socket.{dst_key, src_key, with_conn, place_conn, connect_in, place_made}
use etcp.Socket.Fresh.{narrowed, fresh_conn, conn_new-fresh, int_32_small}

module _ (hash64 : HtKey → ℕ) where
  -- The lookups for a flow's destination and then for its source lead to the connection `c`.
  pub record Reaches (st : Store) (flow : FlowId) (c : ℕ) : Type 0 where
    pub at : ℕ
    pub map : LaMap
    pub destination : (HashTable.get hash64 st.state.dst_map (dst_key flow)).1 ≡ some at
    pub held : st.maps at ≡ some map
    pub source : HashTable.get hash64 map.table (src_key flow) ≡ (HtError.enoeror, some c)

  pub add_new-found :
      (ht : Ht ℕ) (key : HtKey) (c : ℕ)
      → bucket hash64 ht key ≡ []
      → ((add_new hash64 true ht key c).0 ≡ HtError.enoeror)
        × (HashTable.get hash64 (add_new hash64 true ht key c).1 key ≡ (HtError.enoeror, some c))
  add_new-found ht key c free =
      let (added, found) = add_new-get hash64 ht key key c free in
      (
        added,
        found
            ∙ ap (λ b. if b then (HtError.enoeror, some c) else HashTable.get hash64 ht key)
                (same_key_refl key),
      )

  module _ (granted : ℕ → Bool) (all : (n : ℕ) → granted n ≡ true) where
    conn_alloc-granted :
        (zeroed : PBuff) (st : Store) (window_log2 buff_size : ℕ) (flow : FlowId) (vlan : ℤ)
        (priority : ℤ)
        → buff_size < 2 ^ 31
        → conn_alloc granted zeroed st window_log2 buff_size flow vlan priority ≡ (
          some st.callocs,
          record st {
            callocs = st.callocs + 6;
            conns =
                update st.conns st.callocs
                  (some (fresh_conn zeroed window_log2 buff_size (narrowed flow) vlan priority));
          },
        )
    unfolding conn_alloc
    conn_alloc-granted zeroed st window_log2 buff_size flow vlan priority small =
        let n = st.callocs in
        let made = conn_new-fresh zeroed window_log2 buff_size (narrowed flow) vlan priority in
        rw (int_32_small buff_size small, conn_alloc)
          (rw (all n, all (n + 1), all (n + 2), all (n + 3), all (n + 4), all (n + 5), conn_alloc)
            (rw (made, conn_alloc) refl))

    -- The store with connection `c` in the map `m`, and with a new connection in it before.
    abbrev pub placed : Store → ℕ → LaMap → FlowId → ℕ → Store
    placed st m map flow c =
        let table = (add_new hash64 true map.table (src_key flow) c).1 in
        record st {
          callocs = st.callocs + 1;
          maps = update st.maps m (some (record map { table = table }));
        }

    abbrev pub with_fresh_conn : PBuff → Store → ℕ → ℕ → FlowId → ℤ → ℤ → Store
    with_fresh_conn zeroed st window_log2 buff_size flow vlan priority = record st {
      callocs = st.callocs + 6;
      conns =
          update st.conns st.callocs
            (some (fresh_conn zeroed window_log2 buff_size (narrowed flow) vlan priority));
    }

    place_conn-Reaches :
        (st : Store) (sock : Socket) (m c : ℕ) (map : LaMap) (flow : FlowId) (is_sender : Bool)
        → (HashTable.get hash64 st.state.dst_map (dst_key flow)).1 ≡ some m
        → st.maps m ≡ some map
        → bucket hash64 map.table (src_key flow) ≡ []
        → (place_conn hash64 granted st sock m c flow is_sender
            ≡ some (enoerr, placed st m map flow c, with_conn sock is_sender c))
          × Reaches (placed st m map flow c) flow c
    unfolding place_conn
    place_conn-Reaches st sock m c map flow is_sender found held free =
        let added = add_new-found map.table (src_key flow) c free in
        (
          rw (held, place_conn) (rw (all st.callocs) (rw (added.0) refl)),
          record {
            at = m;
            map = record map { table = (add_new hash64 true map.table (src_key flow) c).1 };
            destination = found;
            held =
                ap
                  (λ b.
                    if b
                    then some
                        (record map { table = (add_new hash64 true map.table (src_key flow) c).1 })
                    else st.maps m)
                  (==_refl m);
            source = added.1;
          },
        )

    -- A connection for a flow whose destination has a map, with nothing in the source's bucket.
    pub connect_in-Reaches :
        (zeroed : PBuff) (st : Store) (sock : Socket) (m : ℕ) (map : LaMap)
        (window_log2 buff_size : ℕ) (flow : FlowId) (is_sender : Bool) (vlan : ℤ) (priority : ℤ)
        → buff_size < 2 ^ 31
        → (HashTable.get hash64 st.state.dst_map (dst_key flow)).1 ≡ some m
        → st.maps m ≡ some map
        → bucket hash64 map.table (src_key flow) ≡ []
        → let c = st.callocs in
          let made = with_fresh_conn zeroed st window_log2 buff_size flow vlan priority in
          let after = placed made m map flow c in
          (connect_in hash64 granted zeroed
              (ok m, st)
              sock
              window_log2
              buff_size
              flow
              is_sender
              vlan
              priority
            ≡ some (enoerr, after, with_conn sock is_sender c))
          × Reaches after flow c
          × (after.conns c
              ≡ some (fresh_conn zeroed window_log2 buff_size (narrowed flow) vlan priority))
    unfolding connect_in place_made
    connect_in-Reaches zeroed st sock m map window_log2 buff_size flow is_sender vlan priority small
          found held free =
        let c = st.callocs in
        let made = conn_alloc-granted zeroed st window_log2 buff_size flow vlan priority small in
        let later = with_fresh_conn zeroed st window_log2 buff_size flow vlan priority in
        let (run, reaches) = place_conn-Reaches later sock m c map flow is_sender found held free in
        (
          ap (λ r. place_made hash64 granted r sock m flow is_sender) made ∙ run,
          reaches,
          ap
              (λ b.
                if b
                then some (fresh_conn zeroed window_log2 buff_size (narrowed flow) vlan priority)
                else st.conns c)
              (==_refl c),
        )
