-- ===== src/CircularQueue/Next.antt =====
-- The slot at the write number of a queue of src/CircularQueue.c: got by `cqGetNextWr`, written by
-- its holder, and committed.
use native.Mathlib.Decide.{dec_lt}
use etcp.Base.{
  ℕ, ◌+◌, ◌%◌, ◌≤◌, ◌<◌, ◌≡◌, true, false, pos, ◌+ℤ◌, arith, ap, ◌∙◌, ==_refl, if◌then◌else◌, ok,
}
use etcp.CircularQueue.{CqError, enoerr, Cq, Slot}
use etcp.CircularQueue.Slots.{get_next_wr, commit_slot, write_buff}
use etcp.CircularQueue.Window.{HasShape, IsValid, occupied, slot_of, get-inside, mod-ne}
use etcp.CircularQueue.Invariant.{commit_slot-IsValid, write_buff-IsValid}
use etcp.CircularQueue.Outcomes.{commit_moves, commit_slot-Commits}
use etcp.CircularQueue.Copy.{write_buff-slot}

module _ {ℓ} {A : Type ℓ} where
  pub get_next_wr-free :
      (cq : Cq A)
      → HasShape cq
      → cq.wr_seq < cq.rd_seq + cq.slot_count
      → occupied cq cq.wr_seq ≡ false
      → get_next_wr cq ≡ ok (cq.wr_seq % cq.slot_count, cq.wr_seq)
  unfolding get_next_wr
  get_next_wr-free cq s space free = rw (get-inside s cq.wr_seq s.ordered space, get_next_wr, free)

  -- The answer of a commit of `len` bytes at the write number, of what was written as `x`.
  pub record Committed (cq : Cq A) (x : A) (len : ℕ) (r : CqError × Cq A) : Type ℓ where
    pub code : r.0 ≡ enoerr
    pub valid : IsValid r.1
    pub rd_seq : r.1.rd_seq ≡ cq.rd_seq
    pub slot_count : r.1.slot_count ≡ cq.slot_count
    pub readable : r.1.readable ≡ cq.readable +ℤ pos 1
    pub more : cq.wr_seq < r.1.rd_max
    pub written :
        r.1.slots (cq.wr_seq % cq.slot_count) ≡ record { len = len; buff = x; valid = true }

  pub write-commit :
      (cq : Cq A) (x : A) (len : ℕ)
      → IsValid cq
      → cq.wr_seq < cq.rd_seq + cq.slot_count
      → len ≤ (slot_of cq cq.wr_seq).len
      → Committed cq x len
          (commit_slot (write_buff cq (cq.wr_seq % cq.slot_count) x) (pos cq.wr_seq) len)
  write-commit cq x len v space fits =
      let i = cq.wr_seq % cq.slot_count in
      let written = write_buff cq i x in
      let valid = write_buff-IsValid cq i x v in
      let wrote = write_buff-slot cq cq.wr_seq x in
      let (m, gt, f, run) =
        commit_moves written len space v.shape.ordered (valid.frontier space)
          (omega (arith, ap (λ t. t.len) wrote))
          (commit_slot-Commits written (pos cq.wr_seq) len valid) in
      record {
        code = ap (λ r. r.0) run;
        valid = commit_slot-IsValid written (pos cq.wr_seq) len valid;
        rd_seq = ap (λ r. r.1.rd_seq) run;
        slot_count = ap (λ r. r.1.slot_count) run;
        readable = ap (λ r. r.1.readable) run;
        more = omega (arith, ap (λ r. r.1.rd_max) run, gt);
        written =
            ap (λ r. r.1.slots i) run
            ∙ ap
                (λ t.
                  if t
                  then record (written.slots i) { len = len; valid = true }
                  else written.slots i)
                (==_refl i)
            ∙ ap (λ (t : Slot A). record t { len = len; valid = true }) wrote;
      }

  -- The slot of the number that was the write number.
  pub Committed-slot :
      {cq : Cq A} {x : A} {len : ℕ} {r : CqError × Cq A}
      → Committed cq x len r
      → slot_of r.1 cq.wr_seq ≡ record { len = len; buff = x; valid = true }
  Committed-slot {cq} {x} {len} {r} c = ap (λ n. r.1.slots (cq.wr_seq % n)) c.slot_count ∙ c.written

  -- In a queue that holds nothing else, the write number moves on by one.
  pub write-commit-alone :
      (cq : Cq A) (x : A) (len : ℕ)
      → IsValid cq
      → ((k : ℕ) → cq.wr_seq ≤ k → k < cq.rd_seq + cq.slot_count → occupied cq k ≡ false)
      → cq.wr_seq < cq.rd_seq + cq.slot_count
      → len ≤ (slot_of cq cq.wr_seq).len
      → (commit_slot (write_buff cq (cq.wr_seq % cq.slot_count) x) (pos cq.wr_seq) len).1.rd_max
        ≡ cq.wr_seq + 1
  write-commit-alone cq x len v free space fits =
      let i = cq.wr_seq % cq.slot_count in
      let written = write_buff cq i x in
      let valid = write_buff-IsValid cq i x v in
      let (m, gt, f, run) =
        commit_moves written len space v.shape.ordered (valid.frontier space)
          (omega (arith, ap (λ t. t.len) (write_buff-slot cq cq.wr_seq x)))
          (commit_slot-Commits written (pos cq.wr_seq) len valid) in
      let moved : m ≡ cq.wr_seq + 1 = elim (dec_lt (cq.wr_seq + 1) m) [
        | no far ↦ omega arith
        | yes far ↦
            let apart =
              mod-ne cq.slot_count cq.wr_seq (cq.wr_seq + 1) (omega arith)
                (omega (arith, f.upto, v.shape.ordered)) in
            absurd (ground (arith, f.passed (cq.wr_seq + 1), f.upto, free (cq.wr_seq + 1)))
      ] in
      ap (λ r. r.1.rd_max) run ∙ moved
