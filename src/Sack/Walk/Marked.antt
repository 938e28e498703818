-- ===== src/Sack/Walk/Marked.antt =====
-- The packets that `generateAcks` of src/etcp.c marks as acknowledged.
use etcp.Base.{
  ℕ, zero, suc, ◌+◌, ◌%◌, ◌≤◌, ◌<◌, ◌≡◌, ◌≢◌, refl, sym, ap, ◌∙◌, true, false, ◌==◌, ==_refl, arith,
}
use native.Mathlib.Decide.{dec_lt}
use etcp.CircularQueue.{Cq}
use etcp.CircularQueue.Window.{occupied, mod-ne}
use etcp.Packet.{PBuff}
use etcp.Conn.{Conn}
use etcp.Sack.{acked}
use etcp.Sack.Walk.{Walks, acked-later}

-- Between two states of a receive queue the packets of the numbers from `i` on, `left` of them, were
-- marked, and no other slot changed.
pub record Marks (i left : ℕ) (before after : Cq PBuff) : Type 0 where
  pub kept :
      (s : ℕ)
      → ((k : ℕ) → i ≤ k → k < i + left → k % before.slot_count ≢ s)
      → after.slots s ≡ before.slots s
  pub sent :
      (n : ℕ)
      → i ≤ n
      → n < i + left
      → occupied before n ≡ true
      → (after.slots (n % before.slot_count)).buff.etcp_dat_hdr.ack_sent ≡ true

pub Marks-refl : (i : ℕ) (cq : Cq PBuff) → Marks i zero cq cq
Marks-refl i cq = record { kept = λ s apart. refl; sent = λ n lo hi full. absurd (omega arith) }

pub Marks-free :
    (i left : ℕ) (before after : Cq PBuff)
    → occupied before i ≡ false
    → Marks (i + 1) left before after
    → Marks i (suc left) before after
Marks-free i left before after free m = record {
  kept = λ s apart. m.kept s (λ k lo hi. apart k (omega arith) (omega arith));
  sent = λ n lo hi full. elim (dec_lt i n) [
    | yes later ↦ m.sent n (omega arith) (omega arith) full
    | no here ↦
        let same : n ≡ i = omega arith in
        absurd (ground (arith, free, full, ap (occupied before) same))
  ];
}

pub Marks-taken :
    (base i left : ℕ) (conn : Conn) (after : Cq PBuff)
    → Walks base i (suc left) conn
    → Marks (i + 1) left (acked conn (i % conn.rx_q.slot_count)).rx_q after
    → Marks i (suc left) conn.rx_q after
Marks-taken base i left conn after w m = record {
  kept = λ s apart.
      let other : (s == i % conn.rx_q.slot_count) ≡ false =
        ground (arith, apart i (omega arith) (omega arith)) in
      m.kept s (λ k lo hi. apart k (omega arith) (omega arith)) ∙ rw other refl;
  sent = λ n lo hi full. elim (dec_lt i n) [
    | yes later ↦
        m.sent n (omega arith) (omega arith)
          (ap (λ t. t.valid) (acked-later base i left n conn w later hi) ∙ full)
    | no here ↦
        let same : n ≡ i = omega arith in
        let s = i % conn.rx_q.slot_count in
        let unchanged = m.kept s (λ k lo hi. λ e. absurd (
          mod-ne conn.rx_q.slot_count i k (omega arith) (omega (arith, w.inside, w.low))
            (sym e))) in
        let marked : ((acked conn s).rx_q.slots s).buff.etcp_dat_hdr.ack_sent ≡ true =
          rw (==_refl s) refl in
        ap (λ k. (after.slots (k % conn.rx_q.slot_count)).buff.etcp_dat_hdr.ack_sent) same
        ∙ ap (λ t. t.buff.etcp_dat_hdr.ack_sent) unchanged
        ∙ marked
  ];
}
