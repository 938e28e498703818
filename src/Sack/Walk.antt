-- ===== src/Sack/Walk.antt =====
-- The loop of `generateAcks` in src/etcp.c over a window whose packets were not acknowledged
-- before.
pub mod Based
pub mod Marked
pub mod Numbers
use native.Mathlib.Decide.{ℕ_discrete}
use etcp.Base.{
  ℕ, zero, suc, ◌+◌, ◌-◌, ◌%◌, ◌^◌, ◌≤◌, ◌<◌, ◌≡◌, ◌≢◌, refl, sym, ap, subst, ◌∙◌, Bool, true,
  false, List, [], ◌∷◌, ◌++◌, ℤ, pos, ◌==◌, ltb, lt→ltb, if◌then◌else◌, arith, Bool-cases, inl, inr,
  some, Result, ok, err, min, pos_part, leb_ℤ, ◌&&◌,
}
use etcp.CircularQueue.{Cq}
use etcp.CircularQueue.Slots.{get_rd}
use etcp.CircularQueue.Window.{IsValid, occupied, slot_of, get-inside, mod-ne}
use etcp.CircularQueue.Invariant.{write_buff-IsValid}
use etcp.Packet.{EtcpError, PBuff, etcp_max_sacks}
use etcp.Conn.{Conn}
use etcp.Sack.{
  Draft, blank, closed, started, counted, acked, flushed, noted, finished, ack_loop, generate_acks,
}
use etcp.Sack.Ranges.{
  IsDraft, numbers, closed-IsDraft, closed-numbers, counted-IsDraft, counted-numbers,
  started-IsDraft, started-numbers, append-append, append-nil,
}

-- The specification: the numbers from `i` on, `left` of them, whose packet is there.
abbrev pub received : ℕ → Cq PBuff → ℕ → List ℕ
received zero cq i = []
received (suc left) cq i =
    if occupied cq i then i ∷ received left cq (i + 1) else received left cq (i + 1)

-- The packets of these numbers stand under their own number, want an acknowledgement and had none.
abbrev pub AreFresh : Cq PBuff → ℕ → ℕ → Type 0
AreFresh cq i left =
    (n : ℕ)
    → i ≤ n
    → n < i + left
    → occupied cq n ≡ true
    → let hdr = (slot_of cq n).buff.etcp_dat_hdr in
      (hdr.seq_num ≡ n) × (hdr.ack_sent ≡ false) × (hdr.no_ack ≡ false)

-- A connection that expects number `base`, at number `i` of its window with `left` to go.
pub record Walks (base i left : ℕ) (conn : Conn) : Type 0 where
  pub valid : IsValid conn.rx_q
  pub expects : conn.seq_ack ≡ pos base
  pub from : base ≤ i
  pub low : conn.rx_q.rd_seq ≤ i
  pub inside : i + left ≤ conn.rx_q.rd_seq + conn.rx_q.slot_count
  pub near : i + left < base + 2 ^ 32
  pub fresh : AreFresh conn.rx_q i left

-- The draft after a received number.
abbrev pub taken : Conn → PBuff → Draft → Draft
taken conn p d = counted p (if d.field_in_progress then d else started conn p d)

pub taken-elim :
    (P : Draft → Type 0) (conn : Conn) (p : PBuff) (d : Draft)
    → (d.field_in_progress ≡ true → P (counted p d))
    → (d.field_in_progress ≡ false → P (counted p (started conn p d)))
    → P (taken conn p d)
taken-elim P conn p d opened idle =
    let Q : Bool → Type 0 = λ b. P (counted p (if b then d else started conn p d)) in
    elim (Bool-cases d.field_in_progress) [
      | inl yes_open ↦ subst Q (sym yes_open) (opened yes_open)
      | inr not_open ↦ subst Q (sym not_open) (idle not_open)
    ]

pub taken-adds :
    (base i : ℕ) (conn : Conn) (p : PBuff) (d : Draft)
    → conn.seq_ack ≡ pos base
    → p.etcp_dat_hdr.seq_num ≡ i
    → base ≤ i
    → i + 1 < base + 2 ^ 32
    → IsDraft base i d
    → IsDraft base (i + 1) (taken conn p d)
      × (numbers base (taken conn p d) ≡ numbers base d ++ i ∷ [])
taken-adds base i conn p d expects own from near s =
    taken-elim (λ t. IsDraft base (i + 1) t × (numbers base t ≡ numbers base d ++ i ∷ [])) conn p d
      (λ opened.
        (counted-IsDraft base i d p opened near s, counted-numbers base i d p opened near s))
      (λ idle.
        let begun = started-IsDraft base i conn d p expects own from (omega arith) idle s in
        (
          counted-IsDraft base i (started conn p d) p refl near begun,
          counted-numbers base i (started conn p d) p refl near begun
              ∙ ap (λ l. l ++ i ∷ []) (started-numbers base i conn d p idle s),
        ))

pub taken_idx : (conn : Conn) (p : PBuff) (d : Draft) → (taken conn p d).field_idx ≡ d.field_idx
taken_idx conn p d = taken-elim (λ t. t.field_idx ≡ d.field_idx) conn p d (λ _. refl) (λ _. refl)

-- A turn below the limit of fields pushes nothing.
pub flushed_less :
    (conn : Conn) (d : Draft) → d.field_idx < etcp_max_sacks → flushed conn d ≡ some (ok d, conn)
unfolding flushed
flushed_less conn d less = rw (lt→ltb d.field_idx etcp_max_sacks less, flushed) refl

pub noted_free :
    (base i left : ℕ) (conn : Conn) (d : Draft)
    → Walks base i (suc left) conn
    → occupied conn.rx_q i ≡ false
    → noted conn d i ≡ (ok (closed d), conn)
unfolding noted get_rd
noted_free base i left conn d w free =
    let found = get-inside w.valid.shape i w.low (omega (arith, w.inside)) in
    rw (found, noted) (rw (free, noted) refl)

pub get_rd_full :
    (cq : Cq PBuff) (i : ℕ)
    → IsValid cq
    → cq.rd_seq ≤ i
    → i < cq.rd_seq + cq.slot_count
    → occupied cq i ≡ true
    → get_rd cq (pos i) ≡ ok (i % cq.slot_count)
unfolding get_rd
get_rd_full cq i v lo hi full = rw (get-inside v.shape i lo hi, get_rd) (rw (full, get_rd) refl)

pub noted-taken :
    (base i left : ℕ) (conn : Conn) (d : Draft)
    → Walks base i (suc left) conn
    → occupied conn.rx_q i ≡ true
    → noted conn d i
      ≡ (ok (taken conn (slot_of conn.rx_q i).buff d), acked conn (i % conn.rx_q.slot_count))
unfolding noted
noted-taken base i left conn d w full =
    let s = i % conn.rx_q.slot_count in
    let found = get_rd_full conn.rx_q i w.valid w.low (omega (arith, w.inside)) full in
    let (own, unsent, wanted) = w.fresh i (omega arith) (omega arith) full in
    let p = (conn.rx_q.slots s).buff in
    let done : Result EtcpError Draft × Conn = (ok (taken conn p d), acked conn s) in
    let mute : Result EtcpError Draft × Conn = (ok (closed d), acked conn s) in
    let looked : noted conn d i ≡ (
        if p.etcp_dat_hdr.ack_sent
        then (ok d, conn)
        else (if p.etcp_dat_hdr.no_ack then mute else done)) =
      rw (found, noted) refl in
    looked
    ∙ ap (λ b. if b then (ok d, conn) else (if p.etcp_dat_hdr.no_ack then mute else done)) unsent
    ∙ ap (λ b. if b then mute else done) wanted

-- A later number of the window after the packet of number `i` was acknowledged.
pub acked-later :
    (base i left n : ℕ) (conn : Conn)
    → Walks base i (suc left) conn
    → i < n
    → n < i + suc left
    → slot_of (acked conn (i % conn.rx_q.slot_count)).rx_q n ≡ slot_of conn.rx_q n
acked-later base i left n conn w more less =
    let apart : (n % conn.rx_q.slot_count == i % conn.rx_q.slot_count) ≡ false =
      ground (arith, mod-ne conn.rx_q.slot_count i n more (omega (arith, w.inside, w.low))) in
    rw apart refl

pub acked-Walks :
    (base i left : ℕ) (conn : Conn)
    → Walks base i (suc left) conn
    → Walks base (i + 1) left (acked conn (i % conn.rx_q.slot_count))
acked-Walks base i left conn w = record {
  valid = write_buff-IsValid conn.rx_q (i % conn.rx_q.slot_count) _ w.valid;
  expects = w.expects;
  from = omega (arith, w.from);
  low = omega (arith, w.low);
  inside = omega (arith, w.inside);
  near = omega (arith, w.near);
  fresh = λ n lo hi full.
      let kept = acked-later base i left n conn w (omega arith) (omega arith) in
      let (own, unsent, wanted) =
        w.fresh n (omega arith) (omega arith) (ap (λ s. s.valid) (sym kept) ∙ full) in
      (
        ap (λ s. s.buff.etcp_dat_hdr.seq_num) kept ∙ own,
        ap (λ s. s.buff.etcp_dat_hdr.ack_sent) kept ∙ unsent,
        ap (λ s. s.buff.etcp_dat_hdr.no_ack) kept ∙ wanted,
      );
}

pub free-Walks :
    (base i left : ℕ) (conn : Conn) → Walks base i (suc left) conn → Walks base (i + 1) left conn
free-Walks base i left conn w = record {
  valid = w.valid;
  expects = w.expects;
  from = omega (arith, w.from);
  low = omega (arith, w.low);
  inside = omega (arith, w.inside);
  near = omega (arith, w.near);
  fresh = λ n lo hi full. w.fresh n (omega arith) (omega arith) full;
}

pub received-same :
    (left : ℕ) (cq q : Cq PBuff) (i : ℕ)
    → ((n : ℕ) → i ≤ n → n < i + left → occupied q n ≡ occupied cq n)
    → received left q i ≡ received left cq i
received-same zero cq q i same = refl
received-same (suc left) cq q i same =
    let here = same i (omega arith) (omega arith) in
    let rest = received-same left cq q (i + 1) (λ n lo hi. same n (omega arith) (omega arith)) in
    ap (λ b. if b then i ∷ received left q (i + 1) else received left q (i + 1)) here
    ∙ ap (λ l. if occupied cq i then i ∷ l else l) rest
