-- ===== src/Socket/Mapping.antt =====
-- `addConnMapping` of src/etcpSockApi.c, against the lookups that packets go
-- through.
use etcp.Base.{
  ℕ, ◌+◌, ◌^◌, ◌<◌, ◌≡◌, refl, ap, ◌∙◌, Bool, true, none, some, ℤ, [], ==_refl, if◌then◌else◌,
  update, ok,
}
use etcp.HashTable.{HtKey, HtError, Ht, add_new}
use etcp.HashTable
use etcp.HashTable.Lookup.{get-compared, reply, find, compared}
use etcp.HashTable.Change.{bucket}
use etcp.Packet.{enoerr, ewrongsock, PBuff}
use etcp.Conn.{FlowId}
use etcp.State.{Socket, Store, LaMap, etcpsock_sr, srcs_map_new}
use etcp.Socket.{dst_key, is_sr, with_conn, with_dst_map, source_map, add_conn_mapping, connect_in}
use etcp.Socket.Placed.{Reaches, add_new-found, connect_in-Reaches}
use etcp.Socket.Fresh.{narrowed, fresh_conn}

module _ (hash64 : HtKey → ℕ) where
  get-empty :
      (ht : Ht ℕ) (key : HtKey) → bucket hash64 ht key ≡ [] → (HashTable.get hash64 ht key).1 ≡ none
  get-empty ht key free =
      ap (λ r. r.1) (get-compared hash64 ht key)
      ∙ ap (λ chain. (reply (find key (compared chain))).1) free

  -- The table of a new map.
  abbrev fresh_table : Ht ℕ
  fresh_table = record {
    entry_size = 0;
    table_entries_log2 = 10;
    table_entries = 2 ^ 10;
    count = 0;
    table = λ i. [];
  }

  abbrev fresh_map : ℤ → ℤ → LaMap
  fresh_map vlan priority = record {
    listen_window_size_log2 = 0;
    listen_buff_size = 0;
    vlan = vlan;
    priority = priority;
    listen_q = none;
    table = fresh_table;
  }

  module _ (granted : ℕ → Bool) (all : (n : ℕ) → granted n ≡ true) where
    srcs_map_new-granted :
        (st : Store) (vlan : ℤ) (priority : ℤ)
        → srcs_map_new granted st 0 0 vlan priority ≡ (
          some st.callocs,
          record st {
            callocs = st.callocs + 3;
            maps = update st.maps st.callocs (some (fresh_map vlan priority));
          },
        )
    unfolding srcs_map_new HashTable.new
    srcs_map_new-granted st vlan priority =
        rw (all st.callocs, all (st.callocs + 1), all (st.callocs + 2)) refl

    -- The store once a map was made for a flow's destination.
    abbrev mapped : Store → FlowId → ℤ → ℤ → Store
    mapped st flow vlan priority =
        with_dst_map
          (record st {
            callocs = st.callocs + 3 + 1;
            maps = update st.maps st.callocs (some (fresh_map vlan priority));
          })
          (add_new hash64 true st.state.dst_map (dst_key flow) st.callocs).1

    source_map-fresh :
        (st : Store) (flow : FlowId) (vlan : ℤ) (priority : ℤ)
        → (HashTable.get hash64 st.state.dst_map (dst_key flow)).1 ≡ none
        → bucket hash64 st.state.dst_map (dst_key flow) ≡ []
        → source_map hash64 granted st flow vlan priority
          ≡ (ok st.callocs, mapped st flow vlan priority)
    unfolding source_map
    source_map-fresh st flow vlan priority absent free =
        let added = add_new-found hash64 st.state.dst_map (dst_key flow) st.callocs free in
        let made = srcs_map_new-granted st vlan priority in
        rw (absent, source_map)
          (rw (made, source_map) (rw made (rw (all (st.callocs + 3)) (rw (added.0) refl))))

    add_conn_mapping-sr :
        (zeroed : PBuff) (st : Store) (sock : Socket) (window_log2 buff_size : ℕ) (flow : FlowId)
        (is_sender : Bool) (vlan : ℤ) (priority : ℤ)
        → sock.type ≡ etcpsock_sr
        → add_conn_mapping hash64 granted zeroed st sock window_log2 buff_size flow is_sender vlan
            priority
          ≡ connect_in hash64 granted zeroed
              (source_map hash64 granted st flow vlan priority)
              sock
              window_log2
              buff_size
              flow
              is_sender
              vlan
              priority
    unfolding add_conn_mapping
    add_conn_mapping-sr zeroed st sock window_log2 buff_size flow is_sender vlan priority sr =
        ap
          (λ t.
            if is_sr t
            then connect_in hash64 granted zeroed (source_map hash64 granted st flow vlan priority)
                sock window_log2 buff_size flow is_sender vlan priority
            else some (ewrongsock, st, sock))
          sr

    -- Where memory is found, slots have fewer than 2 ^ 31 bytes, and nothing is in the bucket of a
    -- flow's destination, `addConnMapping` for a socket that sends and receives succeeds: the
    -- lookups then lead to a new connection, which keeps the flow's ports and source address in 32
    -- bits and is the one that the socket has for sending, or for receiving.
    pub add_conn_mapping-Reaches :
        (zeroed : PBuff) (st : Store) (sock : Socket) (window_log2 buff_size : ℕ) (flow : FlowId)
        (is_sender : Bool) (vlan : ℤ) (priority : ℤ)
        → sock.type ≡ etcpsock_sr
        → buff_size < 2 ^ 31
        → bucket hash64 st.state.dst_map (dst_key flow) ≡ []
        → let c = st.callocs + 3 + 1 in
          (after : Store) × (add_conn_mapping hash64 granted zeroed st sock window_log2 buff_size
              flow is_sender vlan priority
            ≡ some (enoerr, after, with_conn sock is_sender c))
          × Reaches hash64 after flow c
          × (after.conns c
              ≡ some (fresh_conn zeroed window_log2 buff_size (narrowed flow) vlan priority))
    add_conn_mapping-Reaches zeroed st sock window_log2 buff_size flow is_sender vlan priority sr
          small free =
        let absent = get-empty st.state.dst_map (dst_key flow) free in
        let there = (add_new-found hash64 st.state.dst_map (dst_key flow) st.callocs free).1 in
        let held : (mapped st flow vlan priority).maps st.callocs ≡ some (fresh_map vlan priority) =
          ap (λ b. if b then some (fresh_map vlan priority) else st.maps st.callocs)
            (==_refl st.callocs) in
        let (run, reaches, kept) =
          connect_in-Reaches hash64 granted all zeroed (mapped st flow vlan priority) sock
            st.callocs (fresh_map vlan priority) window_log2 buff_size flow is_sender vlan priority
            small (ap (λ r. r.1) there) held refl in
        (
          _,
          add_conn_mapping-sr zeroed st sock window_log2 buff_size flow is_sender vlan priority sr
              ∙ ap
                  (λ r.
                    connect_in hash64 granted zeroed r sock window_log2 buff_size flow is_sender
                      vlan priority)
                  (source_map-fresh st flow vlan priority absent free)
              ∙ run,
          reaches,
          kept,
        )

    -- `addConnMapping` for a destination that has a map.
    pub add_conn_mapping-mapped :
        (zeroed : PBuff) (st : Store) (sock : Socket) (m : ℕ) (window_log2 buff_size : ℕ)
        (flow : FlowId) (is_sender : Bool) (vlan : ℤ) (priority : ℤ)
        → sock.type ≡ etcpsock_sr
        → (HashTable.get hash64 st.state.dst_map (dst_key flow)).1 ≡ some m
        → add_conn_mapping hash64 granted zeroed st sock window_log2 buff_size flow is_sender vlan
            priority
          ≡ connect_in hash64 granted zeroed
              (ok m, st)
              sock
              window_log2
              buff_size
              flow
              is_sender
              vlan
              priority
    unfolding source_map
    add_conn_mapping-mapped zeroed st sock m window_log2 buff_size flow is_sender vlan priority sr
          found =
        add_conn_mapping-sr zeroed st sock window_log2 buff_size flow is_sender vlan priority sr
        ∙ rw (found, source_map) refl
