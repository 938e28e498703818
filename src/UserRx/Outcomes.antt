-- ===== src/UserRx/Outcomes.antt =====
-- What `doEtcpUserRx` of src/etcp.c gives the user.
use etcp.Base.{
  ℕ, zero, suc, ◌+◌, ◌%◌, ◌<◌, ◌≡◌, refl, ap, ◌∙◌, true, false, Option, some, pos, arith,
  Bool-cases, inl, inr, ok, err, min, Bytes, memcpy,
}
use native.Mathlib.Decide.{dec_lt}
use etcp.CircularQueue.{Cq, CqError}
use etcp.CircularQueue.Slots.{get_next_rd, release_slot}
use etcp.CircularQueue.Window.{IsValid, occupied, slot_of, get-inside, slot_count_pos}
use etcp.CircularQueue.Outcomes.{release_moves, release_slot-Releases}
use etcp.CircularQueue.Invariant.{release_slot-IsValid}
use etcp.Packet.{EtcpError, enoerr, etryagain, PBuff}
use etcp.UserRx.{do_etcp_user_rx}

-- The first packet of the queue.
abbrev pub first : Cq PBuff → PBuff
first cq = (slot_of cq cq.rd_seq).buff

abbrev pub rest : Cq PBuff → Cq PBuff
rest cq = (release_slot cq (pos cq.rd_seq)).1

-- The answers: try again where nothing is there or the first packet is not acknowledged yet, the
-- payload of a first packet that is acknowledged and fresh, and after a stale one what the rest of
-- the queue answers.
pub data Receives (dat : Bytes) (len : ℕ)
    : Cq PBuff → Option (EtcpError × Bytes × Cq PBuff) → Type 0 where
  drained :
      {cq : Cq PBuff} → cq.rd_seq ≡ cq.wr_seq → Receives dat len cq (some (etryagain, dat, cq))
  unacked :
      {cq : Cq PBuff}
      → cq.rd_seq < cq.wr_seq
      → (first cq).etcp_dat_hdr.ack_sent ≡ false
      → Receives dat len cq (some (etryagain, dat, cq))
  delivered :
      {cq : Cq PBuff}
      → cq.rd_seq < cq.wr_seq
      → (first cq).etcp_dat_hdr.ack_sent ≡ true
      → (first cq).etcp_dat_hdr.stale_dat ≡ false
      → Receives dat len cq (
          some (
            enoerr,
            memcpy dat (first cq).payload (min (first cq).etcp_dat_hdr.dat_len len),
            rest cq,
          ))
  stale :
      {cq : Cq PBuff} {result : Option (EtcpError × Bytes × Cq PBuff)}
      → cq.rd_seq < cq.wr_seq
      → (first cq).etcp_dat_hdr.ack_sent ≡ true
      → (first cq).etcp_dat_hdr.stale_dat ≡ true
      → Receives dat len (rest cq) result
      → Receives dat len cq result

get_next_rd-empty :
    (cq : Cq PBuff) → IsValid cq → cq.rd_seq ≡ cq.wr_seq → get_next_rd cq ≡ err CqError.enoslot
unfolding get_next_rd
get_next_rd-empty cq v e =
    let space : cq.wr_seq < cq.rd_seq + cq.slot_count = omega (arith, slot_count_pos v.shape) in
    let found = get-inside v.shape cq.rd_seq (omega arith) (omega arith) in
    let free : occupied cq cq.rd_seq ≡ false = ap (occupied cq) e ∙ v.frontier space in
    rw (found, get_next_rd) (rw (free, get_next_rd) refl)

get_next_rd-first :
    (cq : Cq PBuff)
    → IsValid cq
    → cq.rd_seq < cq.wr_seq
    → get_next_rd cq ≡ ok (cq.rd_seq % cq.slot_count, cq.rd_seq)
unfolding get_next_rd
get_next_rd-first cq v some_data =
    let found =
      get-inside v.shape cq.rd_seq (omega arith) (omega (arith, slot_count_pos v.shape)) in
    let full = v.head some_data in rw (found, get_next_rd) (rw (full, get_next_rd) refl)

-- On a well-formed queue, with fuel for one turn more than there are numbers from the read to the
-- write number, `doEtcpUserRx` has one of these answers: it hands over nothing that is
-- unacknowledged or stale, keeps the order of the queue, and never ends with an error of the queue.
pub do_etcp_user_rx-Receives :
    (fuel : ℕ) (cq : Cq PBuff) (dat : Bytes) (len : ℕ)
    → IsValid cq
    → cq.wr_seq < fuel + cq.rd_seq
    → Receives dat len cq (do_etcp_user_rx fuel cq dat len)
unfolding do_etcp_user_rx
do_etcp_user_rx-Receives zero cq dat len v enough = absurd (omega (arith, v.shape.ordered))
do_etcp_user_rx-Receives (suc fuel) cq dat len v enough = elim (dec_lt cq.rd_seq cq.wr_seq) [
  | no e ↦
      let none_left : cq.rd_seq ≡ cq.wr_seq = omega (arith, v.shape.ordered) in
      rw (get_next_rd-empty cq v none_left, do_etcp_user_rx) (drained none_left)
  | yes more ↦
      let (m, gt, f, run) =
        release_moves cq (slot_count_pos v.shape) (v.head more)
          (release_slot-Releases cq (pos cq.rd_seq) v) in
      let code : (release_slot cq (pos cq.rd_seq)).0 ≡ CqError.enoerr = ap (λ r. r.0) run in
      let ahead : (rest cq).rd_seq ≡ m = ap (λ r. r.1.rd_seq) run in
      let same : (rest cq).wr_seq ≡ cq.wr_seq = ap (λ r. r.1.wr_seq) run in
      let later =
        do_etcp_user_rx-Receives fuel (rest cq) dat len (release_slot-IsValid cq (pos cq.rd_seq) v)
          (omega arith) in
      rw (get_next_rd-first cq v more, do_etcp_user_rx)
        (elim (Bool-cases (first cq).etcp_dat_hdr.ack_sent) [
          | inr waits ↦ rw waits (unacked more waits)
          | inl acked ↦ elim (Bool-cases (first cq).etcp_dat_hdr.stale_dat) [
            | inl old ↦ rw acked (rw old (stale more acked old later))
            | inr fresh ↦ rw acked (rw fresh (rw code (delivered more acked fresh)))
          ]
        ])
]
