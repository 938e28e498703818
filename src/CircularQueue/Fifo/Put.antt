-- ===== src/CircularQueue/Fifo/Put.antt =====
-- Putting into a queue that is used in order.
use mathlib.Core.Path.{ap₂}
use etcp.Base.{
  ==_refl, ℕ, suc, ◌+◌, ◌-◌, ◌%◌, ◌≤◌, ◌<◌, ◌≡◌, ◌≢◌, pos, arith, [], ◌∷◌, ◌++◌, sym, ap, ◌∙◌, ◌+ℤ◌,
  ◌-ℤ◌,
}
use etcp.CircularQueue.{enoerr, enoslot, Cq}
use etcp.CircularQueue.Slots.{commit_slot, get_next_wr, write_buff, filled}
use etcp.CircularQueue.Window.{HasShape, slot_of, get-above, mod-ne}
use etcp.CircularQueue.Moved.{wr_moved}
use etcp.CircularQueue.Invariant.{commit_slot-IsValid, write_buff-IsValid}
use etcp.CircularQueue.Outcomes.{commit_moves, commit_slot-Commits}
use etcp.CircularQueue.Next.{get_next_wr-free}
use etcp.CircularQueue.Fifo.{put, IsFifo, payloads, contents, payloads-snoc, payloads_congr}

module _ {ℓ} {A : Type ℓ} where
  abbrev pub write_slot : Cq A → ℕ
  write_slot cq = cq.wr_seq % cq.slot_count

  -- The queue that `put` leaves.
  abbrev pub pushed : Cq A → A → ℕ → Cq A
  pushed cq x len =
      wr_moved (filled (write_buff cq (write_slot cq) x) (write_slot cq) len) (cq.wr_seq + 1)

  module _ (cq : Cq A) (v : IsFifo cq) (space : cq.wr_seq < cq.rd_seq + cq.slot_count) where
    other_free :
        (n : ℕ) → cq.wr_seq < n → n < cq.rd_seq + cq.slot_count → n % cq.slot_count ≢ write_slot cq
    other_free n lo hi e =
        mod-ne cq.slot_count cq.wr_seq n lo (omega (arith, v.valid.shape.ordered)) (sym e)

    other_full : (n : ℕ) → cq.rd_seq ≤ n → n < cq.wr_seq → n % cq.slot_count ≢ write_slot cq
    other_full n lo hi = mod-ne cq.slot_count n cq.wr_seq hi (omega arith)

    commit_run :
        (x : A) (len : ℕ)
        → len ≤ cq.slot_data_size
        → commit_slot (write_buff cq (write_slot cq) x) (pos cq.wr_seq) len
          ≡ (enoerr, pushed cq x len)
    commit_run x len fits =
        let q = write_buff cq (write_slot cq) x in
        let free = v.free cq.wr_seq (omega arith) space in
        let long = v.room cq.wr_seq (omega arith) space in
        let (w, gt, f, run) =
          commit_moves q len space v.valid.shape.ordered (ground arith) (ground arith) (
            commit_slot-Commits q (pos cq.wr_seq) len
              (write_buff-IsValid cq (write_slot cq) x v.valid)) in
        let next : w ≡ cq.wr_seq + 1 = ground (
          arith,
          f.upto,
          f.passed (cq.wr_seq + 1),
          v.free (cq.wr_seq + 1),
          other_free (cq.wr_seq + 1),
        ) in
        rw next at run

    pub put_run :
        (x : A) (len : ℕ) → len ≤ cq.slot_data_size → put cq x len ≡ (enoerr, pushed cq x len)
    unfolding put
    put_run x len fits =
        rw (get_next_wr-free cq v.valid.shape space (v.free cq.wr_seq (omega arith) space), put)
          (commit_run x len fits)

    pub pushed-IsFifo : (x : A) (len : ℕ) → len ≤ cq.slot_data_size → IsFifo (pushed cq x len)
    unfolding ◌+ℤ◌ ◌-ℤ◌
    pushed-IsFifo x len fits = record {
      valid = rw (commit_run x len fits) at (
          commit_slot-IsValid (write_buff cq (write_slot cq) x) (pos cq.wr_seq) len
            (write_buff-IsValid cq (write_slot cq) x v.valid));
      full = λ n lo hi. ground (arith, v.full n);
      free = λ n lo hi. ground (arith, v.free n, other_free n);
      room = λ n lo hi. ground (arith, v.room n, other_free n);
      size = v.size;
      readable = ground (arith, v.readable, v.valid.shape.ordered);
      available = ground (arith, v.available, v.valid.shape.ordered);
      outstanding = ground (arith, v.outstanding);
    }

    pub contents-pushed : (x : A) (len : ℕ) → contents (pushed cq x len) ≡ contents cq ++ x ∷ []
    contents-pushed x len =
        let count = cq.wr_seq - cq.rd_seq in
        let after = pushed cq x len in
        let longer : cq.wr_seq + 1 - cq.rd_seq ≡ suc count = omega (arith, v.valid.shape.ordered) in
        let last : cq.rd_seq + count ≡ cq.wr_seq = omega (arith, v.valid.shape.ordered) in
        ap (λ k. payloads after k cq.rd_seq) longer
        ∙ payloads-snoc after count cq.rd_seq
        ∙ ap₂ (λ l y. l ++ y ∷ [])
            (payloads_congr cq after count cq.rd_seq (λ k lo hi. ground (arith, other_full k)))
            (ap (λ k. (slot_of after k).buff) last ∙ rw (==_refl (write_slot cq)))

  -- A full queue is left as it is, with cqENOSLOT.
  pub put_full :
      (cq : Cq A) (x : A) (len : ℕ)
      → HasShape cq
      → cq.wr_seq ≡ cq.rd_seq + cq.slot_count
      → put cq x len ≡ (enoslot, cq)
  unfolding put get_next_wr
  put_full cq x len s full = rw (get-above s cq.wr_seq (omega arith), put, get_next_wr)
