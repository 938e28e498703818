-- ===== src/RxAck/Released.antt =====
-- What `etcpOnRxAck` of src/etcp.c makes of a range that covers the first packets of the send
-- queue.
use etcp.Base.{
  ℕ, zero, suc, ◌+◌, ◌%◌, ◌^◌, ◌≤◌, ◌<◌, ◌≡◌, refl, ap, subst, ◌∙◌, Bool, true, false, some, pos,
  ltb, ◌==◌, if◌then◌else◌, arith, Result-cases, inl, inr, Bool-cases,
}
use etcp.CircularQueue.{Cq}
use etcp.CircularQueue.Slots.{get_rd, emptied}
use etcp.CircularQueue.Window.{IsValid, occupied, slot_of, slot_count_pos}
use etcp.CircularQueue.Invariant.{release_slot-IsValid}
use etcp.CircularQueue.Moved.{rd_moved}
use etcp.CircularQueue.Advance.{FirstFull}
use etcp.CircularQueue.Outcomes.{other_slot}
use etcp.Packet.{EtcpError, PBuff}
use etcp.Ack.{process_ack}
use etcp.Ack.Outcomes.{
  Acks, process_ack-Acks, repeated, beyond, absent, other, in_order, out_of_order,
}
use etcp.RxAck.{ack_range}
use etcp.RxAck.Range.{acks, ack_range-acks}

if-IsValid :
    (b : Bool) (x y : EtcpError × Cq PBuff)
    → IsValid x.1
    → IsValid y.1
    → IsValid (if b then x else y).1
if-IsValid true x y vx vy = vx
if-IsValid false x y vx vy = vy

pub process_ack-IsValid : (cq : Cq PBuff) (seq : ℕ) → IsValid cq → IsValid (process_ack cq seq).1
unfolding process_ack
process_ack-IsValid cq seq v = elim (Bool-cases (ltb seq cq.rd_min)) [
  | inl below ↦ rw below v
  | inr above ↦ rw above (elim (Result-cases (get_rd cq (pos seq))) [
    | inr (e, missing) ↦ rw missing v
    | inl (s, found) ↦ rw found (
        if-IsValid (seq == (cq.slots s).buff.etcp_dat_hdr.seq_num) _ _
          (release_slot-IsValid cq (pos seq) v) v)
  ])
]

-- The first `count` packets of the window are there, each under its own number.
abbrev pub Sent : Cq PBuff → ℕ → Type 0
Sent cq count =
    (n : ℕ)
    → cq.rd_seq ≤ n
    → n < cq.rd_seq + count
    → (occupied cq n ≡ true) × ((slot_of cq n).buff.etcp_dat_hdr.seq_num ≡ n)

-- Another slot than the first keeps what it has when the first is emptied.
emptied-other :
    (cq : Cq PBuff) (n : ℕ)
    → IsValid cq
    → cq.rd_seq < n
    → n < cq.rd_seq + cq.slot_count
    → slot_of (emptied cq (cq.rd_seq % cq.slot_count)) n ≡ slot_of cq n
emptied-other cq n v lo hi =
    let apart : (n % cq.slot_count == cq.rd_seq % cq.slot_count) ≡ false = ground (
      arith,
      other_slot cq n cq.rd_seq (omega arith) hi (omega arith)
          (omega (arith, slot_count_pos v.shape)),
    ) in
    rw apart refl

-- The acknowledgement of the first packet, alone or with another one behind it.
first_acked :
    (cq : Cq PBuff) {r : EtcpError × Cq PBuff}
    → IsValid cq
    → Sent cq 1
    → Acks cq cq.rd_seq r
    → (m : ℕ) × (cq.rd_seq < m)
      × FirstFull (emptied cq (cq.rd_seq % cq.slot_count)) cq.rd_seq m
      × (r.1 ≡ rd_moved (emptied cq (cq.rd_seq % cq.slot_count)) m)
first_acked cq v sent (repeated h e) = absurd (omega arith)
first_acked cq v sent (beyond h e) = absurd (omega (arith, slot_count_pos v.shape))
first_acked cq v sent (absent lo hi free e) =
    absurd (ground (arith, sent cq.rd_seq (omega arith) (omega arith)))
first_acked cq v sent (other lo hi full strange e) =
    absurd (ground (arith, sent cq.rd_seq (omega arith) (omega arith)))
first_acked cq v sent (in_order m same full own gt f e) = (m, gt, f, rw e refl)
first_acked cq v sent (out_of_order lo hi full own e) = absurd (omega arith)

one_more :
    (cq : Cq PBuff) (count : ℕ)
    → IsValid cq
    → Sent cq (suc (suc count))
    → cq.rd_seq + suc (suc count) ≤ cq.wr_seq
    → (process_ack cq cq.rd_seq).1
      ≡ rd_moved (emptied cq (cq.rd_seq % cq.slot_count)) (cq.rd_seq + 1)
one_more cq count v sent room =
    let (m, gt, f, run) =
      first_acked cq v (λ n lo hi. sent n lo (omega arith)) (process_ack-Acks cq cq.rd_seq v) in
    let next = cq.rd_seq + 1 in
    let kept = emptied-other cq next v (omega arith) (omega (arith, v.shape.bounded)) in
    let full : occupied (emptied cq (cq.rd_seq % cq.slot_count)) next ≡ true =
      ap (λ s. s.valid) kept ∙ (sent next (omega arith) (omega arith)).0 in
    let exact : m ≡ next = ground (arith, f.passed next, full) in rw (← exact) run

acks-through :
    (count : ℕ) (cq : Cq PBuff) (first i : ℕ)
    → IsValid cq
    → Sent cq count
    → cq.rd_seq + count ≤ cq.wr_seq
    → first + i ≡ cq.rd_seq
    → first + i + count < 2 ^ 64
    → IsValid (acks count cq first i) × (first + i + count ≤ (acks count cq first i).rd_seq)
acks-through zero cq first i v sent room at small = (v, omega arith)
acks-through (suc zero) cq first i v sent room at small =
    let here : (first + i) % 2 ^ 64 ≡ cq.rd_seq = omega arith in
    let (m, gt, f, run) = first_acked cq v sent (process_ack-Acks cq cq.rd_seq v) in
    let moved : (process_ack cq cq.rd_seq).1.rd_seq ≡ m = ap (λ q. q.rd_seq) run in
    rw (here, acks) (process_ack-IsValid cq cq.rd_seq v, omega (arith, moved))
acks-through (suc (suc count)) cq first i v sent room at small =
    let here : (first + i) % 2 ^ 64 ≡ cq.rd_seq = omega arith in
    let after = rd_moved (emptied cq (cq.rd_seq % cq.slot_count)) (cq.rd_seq + 1) in
    let run = one_more cq count v sent room in
    let valid : IsValid after = subst IsValid run (process_ack-IsValid cq cq.rd_seq v) in
    let rest : Sent after (suc count) = λ n lo hi.
      let kept = emptied-other cq n v (omega arith) (omega (arith, v.shape.bounded)) in
      let (full, own) = sent n (omega arith) (omega arith) in
      (ap (λ s. s.valid) kept ∙ full, ap (λ s. s.buff.etcp_dat_hdr.seq_num) kept ∙ own) in
    let (done, past) =
      acks-through (suc count) after first (i + 1) valid rest (omega arith) (omega arith)
        (omega arith) in
    rw (here, acks) (rw (run, acks) (done, omega (arith, past)))

-- On a well-formed send queue whose first `count` packets are there, each under its own number, the
-- loop over the range of these numbers ends, with fuel for one turn more than they are, where they
-- are fewer than 2 ^ 16 and the numbers stay below 2 ^ 64: it leaves a well-formed queue whose read
-- number has passed the range.
pub ack_range-releases :
    (fuel : ℕ) (cq : Cq PBuff) (count : ℕ)
    → IsValid cq
    → Sent cq count
    → cq.rd_seq + count ≤ cq.wr_seq
    → count < 2 ^ 16
    → cq.rd_seq + count < 2 ^ 64
    → count < fuel
    → (after : Cq PBuff) × (ack_range fuel cq cq.rd_seq 0 count ≡ some after)
      × IsValid after
      × (cq.rd_seq + count ≤ after.rd_seq)
ack_range-releases fuel cq count v sent room small low enough =
    let (valid, past) = acks-through count cq cq.rd_seq 0 v sent room (omega arith) (omega arith) in
    (
      acks count cq cq.rd_seq 0,
      ack_range-acks fuel cq cq.rd_seq count small enough,
      valid,
      omega (arith, past),
    )
