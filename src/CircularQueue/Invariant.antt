-- ===== src/CircularQueue/Invariant.antt =====
-- The invariant of src/CircularQueue.c: every operation keeps it.
use etcp.Base.{
  ℕ, ◌+◌, ◌%◌, ◌^◌, ◌≤◌, ◌<◌, ◌≡◌, ◌⊎◌, inl, inr, refl, true, false, ℤ, pos, negsuc, some, ok, err,
  arith, ◌==◌, ==_iff, Bool-cases, Buffer, min,
}
use etcp.CircularQueue.{CqError, Cq, new, get, adv_wr_seq, adv_rd_seq}
use etcp.CircularQueue.Slots.{commit_slot, release_slot, push, write_buff, filled, emptied}
use etcp.CircularQueue.Window.{HasShape, IsValid, occupied, get-below, get-above, get-inside}
use etcp.CircularQueue.Moved.{
  adv_wr_seq-FirstFree, adv_rd_seq-FirstFull, wr_moved-IsValid, rd_moved-IsValid,
}
use native.Mathlib.Decide.{dec_lt}

module _ {ℓ} {A : Type ℓ} where
  -- A queue that `cqNew` returns satisfies the invariant, has `2 ^ slotCountLog2` slots, and all of
  -- them are free and as long as the buffer size asks for.
  pub new-IsValid :
      (size log2 : ℕ) (zeroed : A) {cq : Cq A}
      → new (pos size) (pos log2) true true zeroed ≡ some cq
      → IsValid cq
        × (cq.slot_count ≡ 2 ^ log2)
        × ((n : ℕ) → (cq.slots n).valid ≡ false)
        × ((n : ℕ) → (cq.slots n).len ≡ size)
  unfolding new
  new-IsValid size log2 zeroed e = ground arith

  -- Where a number stands to the window, and what `cqGet` answers.
  pub get-cases :
      (cq : Cq A) (n : ℤ)
      → HasShape cq
      → ((e : CqError) × (get cq n ≡ err e))
        ⊎ ((k : ℕ) × (n ≡ pos k)
            × (cq.rd_seq ≤ k)
            × (k < cq.rd_seq + cq.slot_count)
            × (get cq n ≡ ok (k % cq.slot_count)))
  get-cases cq (negsuc k) s = inl (_, get-below s (negsuc k) (omega arith))
  get-cases cq (pos k) s = elim (dec_lt k cq.rd_seq) [
    | yes low ↦ inl (_, get-below s (pos k) (omega arith))
    | no high ↦ elim (dec_lt k (cq.rd_seq + cq.slot_count)) [
      | yes inside ↦ inr (k, refl, omega arith, inside, get-inside s k (omega arith) inside)
      | no above ↦ inl (_, get-above s k (omega arith))
    ]
  ]

  pub adv_wr_seq-IsValid :
      (cq : Cq A)
      → HasShape cq
      → (cq.rd_seq < cq.wr_seq → occupied cq cq.rd_seq ≡ true)
      → IsValid (adv_wr_seq cq).1
  adv_wr_seq-IsValid cq s head =
      let (w, f, run) = adv_wr_seq-FirstFree cq s in
      elim (Bool-cases (w == cq.wr_seq)) [
        | inl same ↦
            rw (run, same)
              (record {
                shape = s;
                head = head;
                frontier = rw ((==_iff w cq.wr_seq).0 same) at f.stopped;
              })
        | inr other ↦ rw (run, other) (wr_moved-IsValid cq w s head f (ground (arith, f.from)))
      ]

  pub adv_rd_seq-IsValid :
      (cq : Cq A)
      → HasShape cq
      → (cq.wr_seq < cq.rd_seq + cq.slot_count → occupied cq cq.wr_seq ≡ false)
      → IsValid (adv_rd_seq cq).1
  adv_rd_seq-IsValid cq s frontier =
      let (r, f, run) = adv_rd_seq-FirstFull cq s in
      elim (Bool-cases (r == cq.rd_seq)) [
        | inl same ↦
            rw (run, same)
              (record {
                shape = s;
                head = rw ((==_iff r cq.rd_seq).0 same) at f.stopped;
                frontier = frontier;
              })
        | inr other ↦ rw (run, other) (rd_moved-IsValid cq r s frontier f (ground (arith, f.from)))
      ]

  -- `cqCommitSlot` keeps the invariant, whatever the number and length and whatever it answers.
  pub commit_slot-IsValid :
      (cq : Cq A) (n : ℤ) (len : ℕ) → IsValid cq → IsValid (commit_slot cq n len).1
  unfolding commit_slot
  commit_slot-IsValid cq n len v = elim (get-cases cq n v.shape) [
    | inl (e, run) ↦ rw (run, commit_slot) v
    | inr (k, _, lo, hi, run) ↦
        let i = k % cq.slot_count in
        let advanced =
          adv_wr_seq-IsValid (filled cq i len) (ground arith) (λ h. ground (arith, v.head h)) in
        rw (run, commit_slot) (ground arith)
  ]

  -- `cqReleaseSlot` keeps the invariant, whatever the number and whatever it answers.
  pub release_slot-IsValid : (cq : Cq A) (n : ℤ) → IsValid cq → IsValid (release_slot cq n).1
  unfolding release_slot
  release_slot-IsValid cq n v = elim (get-cases cq n v.shape) [
    | inl (e, run) ↦ rw (run, release_slot) v
    | inr (k, _, lo, hi, run) ↦
        let i = k % cq.slot_count in
        let advanced =
          adv_rd_seq-IsValid (emptied cq i) (ground arith) (λ h. ground (arith, v.frontier h)) in
        rw (run, release_slot) (ground arith)
  ]

  -- A write into a slot's buffer keeps it too, and so does `cqPush`.
  pub write_buff-IsValid : (cq : Cq A) (i : ℕ) (x : A) → IsValid cq → IsValid (write_buff cq i x)
  write_buff-IsValid cq i x v = record {
    shape = ground arith;
    head = λ h. ground (arith, v.head h);
    frontier = λ h. ground (arith, v.frontier h);
  }

  -- `cqPush` keeps the invariant, whatever the number and length and whatever it answers.
  pub push-IsValid :
      ⦃b : Buffer A⦄ (cq : Cq A) (src : A) (len : ℕ) (n : ℤ)
      → IsValid cq
      → IsValid (push cq src len n).2
  unfolding push
  push-IsValid ⦃b⦄ cq src len n v = elim (get-cases cq n v.shape) [
    | inl (e, run) ↦ rw (run, push) v
    | inr (k, _, lo, hi, run) ↦
        let i = k % cq.slot_count in
        let written =
          write_buff-IsValid cq i (b.copy (cq.slots i).buff src (min len (cq.slots i).len)) v in
        rw (run, push) (ground arith)
  ]
