-- ===== src/CircularQueue/Fifo/Take.antt =====
-- Taking from a queue that is used in order.
use etcp.Base.{
  ℕ, suc, ◌+◌, ◌-◌, ◌%◌, ◌≤◌, ◌<◌, ◌≡◌, ◌≢◌, true, false, pos, arith, none, some, ◌∷◌, sym, ap, ◌∙◌,
  ok, ◌+ℤ◌, ◌-ℤ◌,
}
use etcp.CircularQueue.{enoerr, enoslot, Cq}
use etcp.CircularQueue.Slots.{release_slot, get_next_rd, emptied}
use etcp.CircularQueue.Window.{
  HasShape, occupied, slot_of, get-inside, mod-ne, mod_wrap, slot_count_pos,
}
use etcp.CircularQueue.Moved.{rd_moved}
use etcp.CircularQueue.Invariant.{release_slot-IsValid}
use etcp.CircularQueue.Outcomes.{release_moves, release_slot-Releases}
use etcp.CircularQueue.Fifo.{take_next, IsFifo, payloads, contents, payloads_congr}

module _ {ℓ} {A : Type ℓ} where
  abbrev pub read_slot : Cq A → ℕ
  read_slot cq = cq.rd_seq % cq.slot_count

  -- The queue that `take_next` leaves.
  abbrev pub popped : Cq A → Cq A
  popped cq = rd_moved (emptied cq (read_slot cq)) (cq.rd_seq + 1)

  get_next_rd-full :
      (cq : Cq A)
      → HasShape cq
      → occupied cq cq.rd_seq ≡ true
      → get_next_rd cq ≡ ok (read_slot cq, cq.rd_seq)
  unfolding get_next_rd
  get_next_rd-full cq s full =
      rw (get-inside s cq.rd_seq (omega arith) (omega (arith, slot_count_pos s)), get_next_rd, full)

  -- An empty queue is left as it is, with cqENOSLOT.
  pub take_next-empty :
      (cq : Cq A) → IsFifo cq → cq.rd_seq ≡ cq.wr_seq → take_next cq ≡ (enoslot, none, cq)
  unfolding take_next get_next_rd
  take_next-empty cq v empty =
      let s = v.valid.shape in
      let free : occupied cq cq.rd_seq ≡ false =
        v.free cq.rd_seq (omega arith) (omega (arith, slot_count_pos s)) in
      rw (
        get-inside s cq.rd_seq (omega arith) (omega (arith, slot_count_pos s)),
        take_next,
        get_next_rd,
        free,
      )

  module _ (cq : Cq A) (v : IsFifo cq) (filled : cq.rd_seq < cq.wr_seq) where
    other_slot_rd :
        (n : ℕ) → cq.rd_seq < n → n < cq.rd_seq + cq.slot_count → n % cq.slot_count ≢ read_slot cq
    other_slot_rd n lo hi e = mod-ne cq.slot_count cq.rd_seq n lo hi (sym e)

    release_run : release_slot cq (pos cq.rd_seq) ≡ (enoerr, popped cq)
    release_run =
        let some_slot = slot_count_pos v.valid.shape in
        let (m, gt, f, run) =
          release_moves cq some_slot (v.full cq.rd_seq (omega arith) filled)
            (release_slot-Releases cq (pos cq.rd_seq) v.valid) in
        let next : m ≡ cq.rd_seq + 1 = ground (
          arith,
          f.upto,
          f.passed (cq.rd_seq + 1),
          v.full (cq.rd_seq + 1),
          v.valid.shape.bounded,
          other_slot_rd (cq.rd_seq + 1),
        ) in
        rw next at run

    pub take_next_run : take_next cq ≡ (enoerr, some (slot_of cq cq.rd_seq).buff, popped cq)
    unfolding take_next
    take_next_run = rw (
      get_next_rd-full cq v.valid.shape (v.full cq.rd_seq (omega arith) filled),
      take_next,
      release_run,
    )

    same_slot :
        (n : ℕ)
        → cq.rd_seq + cq.slot_count ≤ n
        → n < cq.rd_seq + 1 + cq.slot_count
        → n % cq.slot_count ≡ read_slot cq
    same_slot n lo hi = mod_wrap cq.slot_count cq.rd_seq n (omega arith)

    pub popped-IsFifo : IsFifo (popped cq)
    unfolding ◌+ℤ◌ ◌-ℤ◌
    popped-IsFifo = record {
      valid = rw release_run at (release_slot-IsValid cq (pos cq.rd_seq) v.valid);
      full = λ n lo hi. ground (arith, v.full n, v.valid.shape.bounded, other_slot_rd n);
      free = λ n lo hi. ground (arith, v.free n, other_slot_rd n, same_slot n);
      room = λ n lo hi. ground (arith, v.room n, other_slot_rd n, same_slot n, v.size);
      size = v.size;
      readable = ground (arith, v.readable);
      available = ground (arith, v.available, v.valid.shape.bounded);
      outstanding = v.outstanding;
    }

    pub contents-popped : contents cq ≡ (slot_of cq cq.rd_seq).buff ∷ contents (popped cq)
    contents-popped =
        let count = cq.wr_seq - (cq.rd_seq + 1) in
        let longer : cq.wr_seq - cq.rd_seq ≡ suc count = omega arith in
        ap (λ k. payloads cq k cq.rd_seq) longer
        ∙ ap (λ l. (slot_of cq cq.rd_seq).buff ∷ l)
            (sym (
              payloads_congr cq (popped cq) count (cq.rd_seq + 1)
                (λ k lo hi. ground (arith, v.valid.shape.bounded, other_slot_rd k))))
