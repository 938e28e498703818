-- ===== src/Sack/Walk/Based.antt =====
-- The number that an acknowledgement of `generateAcks` in src/etcp.c starts at, and its push.
use native.Mathlib.Decide.{dec_lt}
use etcp.Base.{
  ℕ, suc, ◌+◌, ◌-◌, ◌%◌, ◌^◌, ◌≤◌, ◌<◌, ◌≡◌, refl, sym, ap, ◌∙◌, ◌+ℤ◌, lt→ltb, ltb_of_le, ◌==◌,
  false, List, pos, arith, Bool-cases, inl, inr, ok, some,
}
use etcp.CircularQueue.Window.{IsValid, slot_of}
use etcp.CircularQueue.Slots.{room, commit_slot, write_buff}
use etcp.Packet.{enoerr, PBuff, etcp_max_sacks, sizeof_pbuff}
use etcp.UserTx.{mk_eth_pkt}
use etcp.Sack.Pushed.{
  HoldsAcks, past_first, length-fields_from, expand-fields_from, push_sack-stored,
}
use etcp.Conn.{Conn}
use etcp.Sack.{
  fields_from, sack_size, sack_packet, eth_overhead, advanced, Draft, blank, closed, finished,
}
use etcp.Sack.Ranges.{ranges, numbers, closed-elim}
use etcp.Sack.Walk.{taken, taken-elim}

-- A draft that has a packet has its base, and one that has none is at its first field.
pub record HasBase (base : ℕ) (d : Draft) : Type 0 where
  pub idle : d.unsent_acks ≡ 0 → (d.field_idx ≡ 0) × (d.field_in_progress ≡ false)
  pub base_seq : 0 < d.unsent_acks → d.sack_hdr.sack_base_seq ≡ pos base

pub closed-HasBase : (base : ℕ) (d : Draft) → HasBase base d → HasBase base (closed d)
closed-HasBase base d h =
    closed-elim (HasBase base) d
      (λ opened. record {
        idle = λ none_yet. absurd (ground (arith, opened, (h.idle none_yet).1));
        base_seq = h.base_seq;
      })
      (λ _. h)

pub taken-HasBase :
    (base : ℕ) (conn : Conn) (p : PBuff) (d : Draft)
    → conn.seq_ack ≡ pos base
    → HasBase base d
    → HasBase base (taken conn p d)
taken-HasBase base conn p d expects h =
    taken-elim (HasBase base) conn p d
      (λ opened. record {
        idle = λ none_yet. absurd (omega arith);
        base_seq = λ _. elim (dec_lt 0 d.unsent_acks) [
          | yes some_yet ↦ h.base_seq some_yet
          | no none_yet ↦ absurd (ground (arith, opened, (h.idle (omega arith)).1))
        ];
      })
      (λ idle. record {
        idle = λ none_yet. absurd (omega arith);
        base_seq = λ _. elim (Bool-cases (d.field_idx == 0)) [
          | inl first ↦ rw first expects
          | inr later ↦ rw later (elim (dec_lt 0 d.unsent_acks) [
            | yes some_yet ↦ h.base_seq some_yet
            | no none_yet ↦ absurd (ground (arith, later, (h.idle (omega arith)).0))
          ])
        ];
      })

pub blank-HasBase : (base : ℕ) → HasBase base blank
blank-HasBase base = record {
  idle = λ _. (refl, refl);
  base_seq = λ some_yet. absurd (omega arith);
}

-- The last push, of a draft that has a packet, in a send queue that has room for it.
pub finished-HoldsAcks :
    (base : ℕ) (conn : Conn) (d : Draft) (all : List ℕ)
    → let slot = slot_of conn.tx_q conn.tx_q.wr_seq in
      conn.seq_ack ≡ pos base
      → numbers base d ≡ all
      → 0 < d.unsent_acks
      → HasBase base d
      → d.field_idx < etcp_max_sacks
      → IsValid conn.tx_q
      → conn.tx_q.wr_seq < conn.tx_q.rd_seq + conn.tx_q.slot_count
      → mk_eth_pkt (slot.len - sizeof_pbuff) conn.vlan ≡ ok (eth_overhead conn.vlan)
      → sack_size (eth_overhead conn.vlan) etcp_max_sacks ≤ slot.len
      → sizeof_pbuff + sack_size (eth_overhead conn.vlan) etcp_max_sacks ≤ room conn.tx_q
      → (after : Conn) × (finished conn d ≡ some (enoerr, after))
        × (let stored = after.tx_q.slots (conn.tx_q.wr_seq % conn.tx_q.slot_count) in
            HoldsAcks base all stored
            × (after.seq_ack ≡ past_first (pos base) stored.buff.etcp_sack_hdr.fields)
            × (after.rx_q ≡ conn.rx_q))
unfolding finished
finished-HoldsAcks base conn d all expects drafted some_yet h few v space framing fits inside =
    let count = d.field_idx + 1 in
    let hdr = record (d.sack_hdr) { sack_count = count % 2 ^ 8 } in
    let i = conn.tx_q.wr_seq % conn.tx_q.slot_count in
    let (run, stored) =
      push_sack-stored conn hdr d.sack_fields count v space framing (omega arith) (omega arith) in
    let fields = fields_from count 0 d.sack_fields in
    let whole : count ≡ suc d.field_idx = omega arith in
    (
      advanced
          (record conn {
            tx_q =
                (commit_slot
                  (write_buff conn.tx_q i (
                    sack_packet conn (conn.tx_q.slots i).buff
                      ((conn.tx_q.slots i).len - sizeof_pbuff) (eth_overhead conn.vlan) hdr
                      d.sack_fields count))
                  (pos conn.tx_q.wr_seq) (sack_size (eth_overhead conn.vlan) count)).1;
          })
          d,
      rw (lt→ltb 0 d.unsent_acks some_yet, finished)
          (rw (ltb_of_le etcp_max_sacks count (omega arith), finished) (rw (run, finished) refl)),
      rw stored (
        record {
          valid = refl;
          type = refl;
          base_seq = h.base_seq some_yet;
          count = ap (λ k. k % 2 ^ 8) (sym (length-fields_from count 0 d.sack_fields));
          numbers =
              expand-fields_from base count d.sack_fields
              ∙ ap (λ k. ranges base k d.sack_fields) whole
              ∙ drafted;
        },
        ap (λ a. a +ℤ pos (d.sack_fields 0).offset +ℤ pos (d.sack_fields 0).count) expects
            ∙ ap (λ k. past_first (pos base) (fields_from k 0 d.sack_fields)) (sym whole),
        refl,
      ),
    )
