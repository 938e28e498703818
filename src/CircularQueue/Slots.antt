-- ===== src/CircularQueue/Slots.antt =====
-- The "non primitive functions" of src/CircularQueue.c: pushing, pulling, committing and releasing
-- one slot. A slot that `*slot_o` points to is its index. Lengths are not negative. What is copied
-- past the end of a slot is not seen in the next one here: callers ask `overruns`.
use etcp.Base.{
  ℕ, ◌-◌, Bool, not, ◌&&◌, true, false, ℤ, pos, ◌+ℤ◌, min, ltb, if◌then◌else◌, Result, ok, err,
  update, Buffer,
}
use etcp.CircularQueue.{
  CqError, enoerr, enoslot, etrunc, erangehi, ewrongslot, epanic, Cq, get, sizeof_slot, adv_wr_seq,
  adv_rd_seq,
}

-- What four of the functions make of an error of `cqGet`.
abbrev pub slot_error : CqError → CqError
slot_error erangehi = enoslot
slot_error _ = epanic

module _ {ℓ} {A : Type ℓ} where
  -- A write through the `buff` of a slot that a caller holds.
  abbrev pub write_buff : Cq A → ℕ → A → Cq A
  write_buff cq i v = record cq { slots = update cq.slots i (record (cq.slots i) { buff = v }) }

  -- The bytes of a slot behind its header, and whether `cqPush` of `len` bytes writes past them: a
  -- slot that was released gives a length that is too large.
  abbrev pub room : Cq A → ℕ
  room cq = cq.slot_size - sizeof_slot

  abbrev pub overruns : Cq A → ℤ → ℕ → Bool
  overruns cq seq_num len = elim (get cq seq_num) [
    | err _ ↦ false
    | ok i ↦ not (cq.slots i).valid && ltb (room cq) (min len (cq.slots i).len)
  ]

  -- The slot's state that a commit of `len` bytes sets, and that a release sets.
  abbrev pub filled : Cq A → ℕ → ℕ → Cq A
  filled cq i len = record cq {
    slots = update cq.slots i (record (cq.slots i) { len = len; valid = true });
    outstanding = cq.outstanding +ℤ pos 1;
  }

  abbrev pub emptied : Cq A → ℕ → Cq A
  emptied cq i = record cq {
    slots = update cq.slots i (record (cq.slots i) { len = cq.slot_size; valid = false });
  }

  -- `cqCommitSlot`.
  unfoldable pub commit_slot : Cq A → ℤ → ℕ → CqError × Cq A
  commit_slot cq seq_num len = elim (get cq seq_num) [
    | err e ↦ (e, cq)
    | ok i ↦
        if ltb (cq.slots i).len len
        then (epanic, cq)
        else (if (cq.slots i).valid then (ewrongslot, cq) else adv_wr_seq (filled cq i len))
  ]

  -- `cqReleaseSlot`.
  unfoldable pub release_slot : Cq A → ℤ → CqError × Cq A
  release_slot cq seq_num = elim (get cq seq_num) [
    | err e ↦ (e, cq)
    | ok i ↦ if (cq.slots i).valid then adv_rd_seq (emptied cq i) else (ewrongslot, cq)
  ]

  -- `cqGetRd`.
  unfoldable pub get_rd : Cq A → ℤ → Result CqError ℕ
  get_rd cq seq_num = elim (get cq seq_num) [
    | err e ↦ err e
    | ok i ↦ if (cq.slots i).valid then ok i else err ewrongslot
  ]

  -- `cqGetNextWr`: the slot and `*seqNum_o`.
  unfoldable pub get_next_wr : Cq A → Result CqError (ℕ × ℕ)
  get_next_wr cq = elim (get cq (pos cq.wr_seq)) [
    | err e ↦ err (slot_error e)
    | ok i ↦ if (cq.slots i).valid then err enoslot else ok (i, cq.wr_seq)
  ]

  -- `cqGetNextRd`.
  unfoldable pub get_next_rd : Cq A → Result CqError (ℕ × ℕ)
  get_next_rd cq = elim (get cq (pos cq.rd_seq)) [
    | err e ↦ err (slot_error e)
    | ok i ↦ if (cq.slots i).valid then ok (i, cq.rd_seq) else err enoslot
  ]

module _ {ℓ} {A : Type ℓ} ⦃b : Buffer A⦄ where
  -- `cqPush`: the code, `*len_io` and the queue.
  unfoldable pub push : Cq A → A → ℕ → ℤ → CqError × ℕ × Cq A
  push cq src len seq_num = elim (get cq seq_num) [
    | err e ↦ (slot_error e, len, cq)
    | ok i ↦
        let slot = cq.slots i in
        let to_copy = min len slot.len in
        if slot.valid then (enoslot, len, cq) else (
          if ltb to_copy len then etrunc else enoerr,
          to_copy,
          write_buff cq i (b.copy slot.buff src to_copy),
        )
  ]

  -- `cqPull` into the caller's buffer `dst`: the code, the buffer and `*len_io`.
  unfoldable pub pull : Cq A → A → ℕ → ℤ → CqError × A × ℕ
  pull cq dst len seq_num = elim (get cq seq_num) [
    | err e ↦ (slot_error e, dst, len)
    | ok i ↦
        let slot = cq.slots i in
        let to_copy = min len slot.len in
        if slot.valid
        then (
          if ltb slot.len to_copy then etrunc else enoerr,
          b.copy dst slot.buff to_copy,
          to_copy,
        )
        else (enoslot, dst, len)
  ]

  -- `cqPushNext` and `cqPullNext`, with `*seqNum_o` last.
  unfoldable pub push_next : Cq A → A → ℕ → (CqError × ℕ × Cq A) × ℕ
  push_next cq src len = (push cq src len (pos cq.wr_seq), cq.wr_seq)

  unfoldable pub pull_next : Cq A → A → ℕ → (CqError × A × ℕ) × ℕ
  pull_next cq dst len = (pull cq dst len (pos cq.rd_seq), cq.rd_seq)
