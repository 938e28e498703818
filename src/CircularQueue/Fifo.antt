-- ===== src/CircularQueue/Fifo.antt =====
-- The contract of src/CircularQueue.c for a caller that fills the slot of `cqGetNextWr` and frees
-- the slot of `cqGetNextRd`: a bounded queue.
pub mod Put
pub mod Take
pub mod Refine
use mathlib.Core.Path.{ap₂}
use native.Mathlib.Decide.{dec_lt, ℕ_discrete}
use etcp.Base.{
  ℕ, zero, suc, ◌+◌, ◌-◌, ◌%◌, ◌≤◌, ◌<◌, ◌≡◌, ◌≢◌, inl, inr, refl, true, false, ℤ, pos, arith,
  Option, none, some, List, [], ◌∷◌, ◌++◌, length, ◌==◌, ltb, if◌then◌else◌, Bool-cases, sym, ap,
  ◌∙◌, Result, ok, err,
}
use etcp.CircularQueue.{CqError, enoerr, enoslot, Cq}
use etcp.CircularQueue.Slots.{
  commit_slot, release_slot, get_next_wr, get_next_rd, write_buff, filled, emptied,
}
use etcp.CircularQueue.Window.{
  HasShape, IsValid, occupied, slot_of, get-inside, get-above, mod-ne, slot_count_pos,
}
use etcp.CircularQueue.Advance.{FirstFree, FirstFull}
use etcp.CircularQueue.Moved.{wr_moved, rd_moved}
use etcp.CircularQueue.Invariant.{commit_slot-IsValid, release_slot-IsValid, write_buff-IsValid}
use etcp.CircularQueue.Outcomes.{
  Commits, Releases, commit_slot-Commits, release_slot-Releases, other_slot,
}

module _ {ℓ} {A : Type ℓ} where
  -- Fill the next slot with `x` and commit it, as the senders and the listener do.
  unfoldable pub put : Cq A → A → ℕ → CqError × Cq A
  put cq x len = elim (get_next_wr cq) [
    | err e ↦ (e, cq)
    | ok (i, n) ↦ commit_slot (write_buff cq i x) (pos n) len
  ]

  -- Read the next slot and release it, as the receivers do.
  unfoldable pub take_next : Cq A → CqError × Option A × Cq A
  take_next cq = elim (get_next_rd cq) [
    | err e ↦ (e, none, cq)
    | ok (i, n) ↦ let (e, after) = release_slot cq (pos n) in (e, some (cq.slots i).buff, after)
  ]

  -- A queue used in order: data from the read number to the write number, free slots beyond it with
  -- room for the payload that the queue was made for, and counters that say so.
  pub record IsFifo (cq : Cq A) : Type 0 where
    pub valid : IsValid cq
    pub full : (n : ℕ) → cq.rd_seq ≤ n → n < cq.wr_seq → occupied cq n ≡ true
    pub free : (n : ℕ) → cq.wr_seq ≤ n → n < cq.rd_seq + cq.slot_count → occupied cq n ≡ false
    pub room :
        (n : ℕ)
        → cq.wr_seq ≤ n
        → n < cq.rd_seq + cq.slot_count
        → cq.slot_data_size ≤ (slot_of cq n).len
    pub size : cq.slot_data_size ≤ cq.slot_size
    pub readable : cq.readable ≡ pos (cq.wr_seq - cq.rd_seq)
    pub available : cq.available ≡ pos (cq.rd_seq + cq.slot_count - cq.wr_seq)
    pub outstanding : cq.outstanding ≡ pos 0

  -- The payloads of `count` numbers from `n` on.
  abbrev pub payloads : Cq A → ℕ → ℕ → List A
  payloads cq zero n = []
  payloads cq (suc count) n = (slot_of cq n).buff ∷ payloads cq count (n + 1)

  abbrev pub contents : Cq A → List A
  contents cq = payloads cq (cq.wr_seq - cq.rd_seq) cq.rd_seq

  pub payloads-snoc :
      (cq : Cq A) (count n : ℕ)
      → payloads cq (suc count) n ≡ payloads cq count n ++ (slot_of cq (n + count)).buff ∷ []
  payloads-snoc cq zero n = ap (λ k. (slot_of cq k).buff ∷ []) (omega arith)
  payloads-snoc cq (suc count) n =
      ap (λ l. (slot_of cq n).buff ∷ l) (payloads-snoc cq count (n + 1))
      ∙ ap (λ k. (slot_of cq n).buff ∷ (payloads cq count (n + 1) ++ (slot_of cq k).buff ∷ []))
          (omega arith)

  pub payloads_congr :
      (cq after : Cq A) (count n : ℕ)
      → ((k : ℕ) → n ≤ k → k < n + count → (slot_of after k).buff ≡ (slot_of cq k).buff)
      → payloads after count n ≡ payloads cq count n
  payloads_congr cq after zero n same = refl
  payloads_congr cq after (suc count) n same =
      ap₂ ◌∷◌ (same n (omega arith) (omega arith))
        (payloads_congr cq after count (n + 1) (λ k lo hi. same k (omega arith) (omega arith)))

  pub length-payloads : (cq : Cq A) (count n : ℕ) → length (payloads cq count n) ≡ count
  length-payloads cq zero n = refl
  length-payloads cq (suc count) n = ap suc (length-payloads cq count (n + 1))
