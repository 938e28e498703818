-- ===== src/Socket/Types.antt =====
-- What a program's calls make of the type of a socket: src/etcpSockApi.c.
use etcp.Base.{
  ℕ, ◌%◌, ◌^◌, ◌≡◌, ◌≢◌, refl, sym, subst, ◌∙◌, Bool, true, false, Option, none, some, ℤ, Result,
  ok, err, if◌then◌else◌, arith, Bool-cases, inl, inr, All, All-bind, All-then, All-map, All-if,
}
use etcp.HashTable.{HtKey, add_new}
use etcp.Packet.{EtcpError, enoerr, ewrongsock, PBuff}
use etcp.Conn.{FlowId}
use etcp.State.{
  Socket, la_of, SocketType, etcpsock_uk, etcpsock_la, etcpsock_sr, Store, conn_alloc, conn_delete,
  srcs_map_new,
}
use etcp.Socket.{
  Answer, is_uk, is_sr, bind_made, is_enoeror, is_ealready, src_key, dst_key, with_conn,
  with_narrow_ports, flipped, source_map, place_conn, place_made, connect_in, add_conn_mapping,
  etcp_connect, etcp_bind,
}

-- A socket of no type has nothing, and a bound one has a map and no connection to send on. A
-- connected one may lack either connection.
abbrev pub Fits : SocketType → Socket → Type 0
Fits etcpsock_uk sock = (sock.recv_conn ≡ none) × (sock.send_conn ≡ none)
Fits etcpsock_la sock = (la_of sock ≢ none) × (sock.send_conn ≡ none)
Fits etcpsock_sr sock = Unit

abbrev pub IsSocket : Socket → Type 0
IsSocket sock = Fits sock.type sock

-- The type of a socket never changes, but from no type to another one.
pub data Becomes : SocketType → SocketType → Type 0 where
  stays : {t : SocketType} → Becomes t t
  binds : Becomes etcpsock_uk etcpsock_la
  connects : Becomes etcpsock_uk etcpsock_sr

Becomes-trans : {a b c : SocketType} → Becomes a b → Becomes b c → Becomes a c
Becomes-trans stays l = l
Becomes-trans binds stays = binds
Becomes-trans connects stays = connects

-- A socket that a call may leave in the place of another one.
abbrev pub Follows : Socket → Socket → Type 0
Follows sock next = IsSocket next × Becomes sock.type next.type

is_uk_sound : (t : SocketType) → is_uk t ≡ true → t ≡ etcpsock_uk
is_uk_sound t h = ground arith

-- A test on the type, where the socket fits and keeps its type unless it had none.
All-uk :
    (P : EtcpError × Store × Socket → Type 0) (sock : Socket) (x y : Answer)
    → IsSocket sock
    → (sock.type ≡ etcpsock_uk → Fits etcpsock_uk sock → All P x)
    → All P y
    → All P (if is_uk sock.type then x else y)
All-uk P sock x y s hx hy = elim (Bool-cases (is_uk sock.type)) [
  | inl fresh ↦
      let untyped = is_uk_sound sock.type fresh in
      subst (λ b. All P (if b then x else y)) (sym fresh)
        (hx untyped (subst (λ t. Fits t sock) untyped s))
  | inr typed ↦ subst (λ b. All P (if b then x else y)) (sym typed) hy
]

-- A socket with the type of another one.
abbrev Keeps : Socket → EtcpError × Store × Socket → Type 0
Keeps sock r = r.2.type ≡ sock.type

with_conn-Keeps :
    (e : EtcpError) (st : Store) (sock : Socket) (is_sender : Bool) (c : ℕ)
    → Keeps sock (e, st, with_conn sock is_sender c)
with_conn-Keeps e st sock true c = refl
with_conn-Keeps e st sock false c = refl

module _ (hash64 : HtKey → ℕ) (granted : ℕ → Bool) where
  place_conn-Keeps :
      (st : Store) (sock : Socket) (m c : ℕ) (flow : FlowId) (is_sender : Bool)
      → All (Keeps sock) (place_conn hash64 granted st sock m c flow is_sender)
  unfolding place_conn
  place_conn-Keeps st sock m c flow is_sender = All-bind (Keeps sock) (st.maps m) _ (λ map.
      let added = add_new hash64 (granted st.callocs) map.table (src_key flow) c in
      All-if (Keeps sock) (is_enoeror added.0) _ _ (with_conn-Keeps enoerr st sock is_sender c)
        (All-bind (Keeps sock) (conn_delete _ (some c)) _ (λ freed. refl)))

  place_made-Keeps :
      (made : Option ℕ × Store) (sock : Socket) (m : ℕ) (flow : FlowId) (is_sender : Bool)
      → All (Keeps sock) (place_made hash64 granted made sock m flow is_sender)
  unfolding place_made
  place_made-Keeps (none, st) sock m flow is_sender = refl
  place_made-Keeps (some c, st) sock m flow is_sender = place_conn-Keeps st sock m c flow is_sender

  module _ (zeroed : PBuff) where
    connect_in-Keeps :
        (found : Result EtcpError ℕ × Store) (sock : Socket) (window_log2 buff_size : ℕ)
        (flow : FlowId) (is_sender : Bool) (vlan : ℤ) (priority : ℤ)
        → All (Keeps sock) (
            connect_in hash64 granted zeroed found sock window_log2 buff_size flow is_sender vlan
              priority)
    unfolding connect_in
    connect_in-Keeps (err e, st) sock window_log2 buff_size flow is_sender vlan priority = refl
    connect_in-Keeps (ok m, st) sock window_log2 buff_size flow is_sender vlan priority =
        place_made-Keeps (conn_alloc granted zeroed st window_log2 buff_size flow vlan priority)
          sock m flow is_sender

    add_conn_mapping-Keeps :
        (st : Store) (sock : Socket) (window_log2 buff_size : ℕ) (flow : FlowId) (is_sender : Bool)
        (vlan : ℤ) (priority : ℤ)
        → All (Keeps sock) (
            add_conn_mapping hash64 granted zeroed st sock window_log2 buff_size flow is_sender vlan
              priority)
    unfolding add_conn_mapping
    add_conn_mapping-Keeps st sock window_log2 buff_size flow is_sender vlan priority =
        All-if (Keeps sock) (is_sr sock.type) _ (some (ewrongsock, st, sock))
          (connect_in-Keeps (source_map hash64 granted st flow vlan priority) sock window_log2
            buff_size flow is_sender vlan priority)
          refl

    connected-Follows :
        (sock : Socket) (r : EtcpError × Store × Socket)
        → sock.type ≡ etcpsock_uk
        → Keeps (record sock { type = etcpsock_sr }) r
        → Follows sock r.2
    connected-Follows sock r untyped type = (
      subst (λ t. Fits t r.2) (sym type) tt,
      subst (λ t. Becomes t r.2.type) (sym untyped)
          (subst (λ t. Becomes etcpsock_uk t) (sym type) connects),
    )

    etcp_connect-Follows :
        (st : Store) (sock : Socket) (window_log2 buff_size : ℕ) (flow : FlowId) (do_return : Bool)
        (vlan : ℤ) (priority : ℤ)
        → IsSocket sock
        → All
            (λ r. Follows sock r.2)
            (etcp_connect hash64 granted zeroed st sock window_log2 buff_size flow do_return vlan
              priority)
    unfolding etcp_connect
    etcp_connect-Follows st sock window_log2 buff_size flow do_return vlan priority s =
        let P : EtcpError × Store × Socket → Type 0 = λ r. Follows sock r.2 in
        let opened = record sock { type = etcpsock_sr } in
        let ports = with_narrow_ports flow in
        let size = buff_size % 2 ^ 32 in
        let there = add_conn_mapping-Keeps st opened window_log2 size ports true vlan priority in
        let both = All-then (Keeps opened) (Keeps opened) _ _ there (λ r k.
          All-map (Keeps r.2) (Keeps opened) _ (λ q l. l ∙ k)
            (add_conn_mapping-Keeps r.1 r.2 window_log2 size (flipped ports) false vlan
              priority)) in
        All-uk P sock _ _ s
          (λ untyped fits.
            All-if P do_return _ _
              (All-then (Keeps opened) P _ _ both (λ r k. connected-Follows sock r untyped k))
              (All-then (Keeps opened) P _ _ there (λ r k. connected-Follows sock r untyped k)))
          (s, stays)

    bound-Follows :
        (sock : Socket) (m : ℕ)
        → sock.type ≡ etcpsock_uk
        → Fits etcpsock_uk sock
        → Follows sock (record sock { type = etcpsock_la; recv_conn = some m })
    bound-Follows sock m untyped (_, unsent) =
        ((ground arith, unsent), subst (λ t. Becomes t etcpsock_la) (sym untyped) binds)

    if-Follows :
        (sock : Socket) (b : Bool) (x y : EtcpError × Store × Socket)
        → Follows sock x.2
        → Follows sock y.2
        → Follows sock (if b then x else y).2
    if-Follows sock true x y fx fy = fx
    if-Follows sock false x y fx fy = fy

    bind_made-Follows :
        (made : Option ℕ × Store) (sock : Socket) (flow : FlowId)
        → sock.type ≡ etcpsock_uk
        → Fits etcpsock_uk sock
        → IsSocket sock
        → Follows sock (bind_made hash64 granted made sock flow).2
    unfolding bind_made
    bind_made-Follows (none, st) sock flow untyped fits s = (s, stays)
    bind_made-Follows (some m, st) sock flow untyped fits s =
        let code = (add_new hash64 (granted st.callocs) st.state.dst_map (dst_key flow) m).0 in
        if-Follows sock (is_ealready code) _ _ (s, stays) (bound-Follows sock m untyped fits)

    etcp_bind-Follows :
        (st : Store) (sock : Socket) (window_log2 buff_size : ℕ) (flow : FlowId) (vlan : ℤ)
        (priority : ℤ)
        → IsSocket sock
        → Follows sock (etcp_bind hash64 granted st sock window_log2 buff_size flow vlan priority).2
    unfolding etcp_bind
    etcp_bind-Follows st sock window_log2 buff_size flow vlan priority s =
        let made = srcs_map_new granted st window_log2 buff_size vlan priority in
        let P : EtcpError × Store × Socket → Type 0 = λ r. Follows sock r.2 in
        let unchanged : EtcpError × Store × Socket = (ewrongsock, st, sock) in
        elim (Bool-cases (is_uk sock.type)) [
          | inl fresh ↦
              let untyped = is_uk_sound sock.type fresh in
              let bound =
                bind_made-Follows made sock flow untyped (subst (λ t. Fits t sock) untyped s) s in
              subst (λ b. P (if b then bind_made hash64 granted made sock flow else unchanged))
                (sym fresh) bound
          | inr typed ↦
              subst (λ b. P (if b then bind_made hash64 granted made sock flow else unchanged))
                (sym typed) (s, stays)
        ]

    -- A call of a program with a socket of its own: `etcpConnect`, `etcpBind`, or one of the
    -- others, which leave the socket as it is.
    pub data Call : Store × Socket → Store × Socket → Type 0 where
      connect :
          {st after : Store} {sock next : Socket} {code : EtcpError} (window_log2 buff_size : ℕ)
          (flow : FlowId) (do_return : Bool) (vlan : ℤ) (priority : ℤ)
          → etcp_connect hash64 granted zeroed st sock window_log2 buff_size flow do_return vlan
              priority
            ≡ some (code, after, next)
          → Call (st, sock) (after, next)
      bind :
          {st after : Store} {sock next : Socket} {code : EtcpError} (window_log2 buff_size : ℕ)
          (flow : FlowId) (vlan : ℤ) (priority : ℤ)
          → etcp_bind hash64 granted st sock window_log2 buff_size flow vlan priority
            ≡ (code, after, next)
          → Call (st, sock) (after, next)

    pub data Calls : Store × Socket → Store × Socket → Type 0 where
      none_left : {s : Store × Socket} → Calls s s
      then_call : {r s t : Store × Socket} → Calls r s → Call s t → Calls r t

    Call-Follows : {r s : Store × Socket} → IsSocket r.1 → Call r s → Follows r.1 s.1
    Call-Follows fits
          (connect {st} {after} {sock} {next} {code} window_log2 buff_size flow do_return vlan
            priority run) =
        subst (All (λ r. Follows sock r.2)) run
          (etcp_connect-Follows st sock window_log2 buff_size flow do_return vlan priority fits)
    Call-Follows fits
          (bind {st} {after} {sock} {next} {code} window_log2 buff_size flow vlan priority run) =
        subst (λ r. Follows sock r.2) run
          (etcp_bind-Follows st sock window_log2 buff_size flow vlan priority fits)

    -- After calls of `etcpConnect` and `etcpBind` with a socket that fits its type, in whatever
    -- order and whatever they answer, the socket still fits its type, and its type is the one it
    -- had, unless it had none and was bound or connected since.
    pub Calls-Follows : {r s : Store × Socket} → IsSocket r.1 → Calls r s → Follows r.1 s.1
    Calls-Follows fits none_left = (fits, stays)
    Calls-Follows fits (then_call calls call) =
        let (before, was) = Calls-Follows fits calls in
        let (after, is) = Call-Follows before call in (after, Becomes-trans was is)
