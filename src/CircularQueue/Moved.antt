-- ===== src/CircularQueue/Moved.antt =====
-- What `cqAdvWrSeq` and `cqAdvRdSeq` return, and that they restore the invariant.
use native.Mathlib.Decide.{dec_lt}
use etcp.Base.{
  ℕ, zero, suc, ◌+◌, ◌-◌, ◌≤◌, ◌<◌, ◌≡◌, refl, true, false, pos, ok, err, arith, ◌==◌,
  if◌then◌else◌, Result, ap, ◌∙◌, ◌+ℤ◌, ◌-ℤ◌, sub_ℕ,
}
use etcp.CircularQueue.{
  CqError, enoerr, enochange, erangehi, epanic, Cq, get, scan_wr, adv_wr_seq, adv_rd_seq,
}
use etcp.CircularQueue.Window.{HasShape, IsValid, occupied, mod_wrap}
use etcp.CircularQueue.Advance.{FirstFree, FirstFull, scan_wr-FirstFree, scan_rd-FirstFull}

module _ {ℓ} {A : Type ℓ} where
  -- The queue after the write number has moved to `w`, and after the read number has moved to `r`.
  abbrev pub wr_moved : Cq A → ℕ → Cq A
  wr_moved cq w = record cq {
    wr_seq = w;
    wr_min = w;
    wr_max = cq.rd_seq + cq.slot_count;
    rd_max = w;
    outstanding = cq.outstanding -ℤ pos 1;
    readable = cq.readable +ℤ pos 1;
    available = cq.available -ℤ pos 1;
  }

  abbrev pub rd_moved : Cq A → ℕ → Cq A
  rd_moved cq r = record cq {
    rd_seq = r;
    rd_min = r;
    rd_max = cq.wr_min + 1;
    wr_max = r + cq.slot_count;
    wr_rng = sub_ℕ (r + cq.slot_count) cq.wr_min;
    rd_rng = sub_ℕ (cq.wr_min + 1) r;
    readable = cq.readable -ℤ pos 1;
    available = cq.available +ℤ pos 1;
  }

  pub adv_wr_seq-FirstFree :
      (cq : Cq A)
      → HasShape cq
      → (w : ℕ) × FirstFree cq cq.wr_seq w
        × (adv_wr_seq cq ≡ (if w == cq.wr_seq then (enochange, cq) else (enoerr, wr_moved cq w)))
  unfolding adv_wr_seq
  adv_wr_seq-FirstFree cq s =
      let (w, run, f) =
        scan_wr-FirstFree cq s (cq.rd_seq + cq.slot_count - cq.wr_seq) cq.wr_seq s.ordered
          (omega (arith, s.bounded)) in
      (w, f, rw (run, adv_wr_seq))

  pub adv_rd_seq-FirstFull :
      (cq : Cq A)
      → HasShape cq
      → (r : ℕ) × FirstFull cq cq.rd_seq r
        × (adv_rd_seq cq ≡ (if r == cq.rd_seq then (enochange, cq) else (enoerr, rd_moved cq r)))
  unfolding adv_rd_seq
  adv_rd_seq-FirstFull cq s =
      let (r, run, f) =
        scan_rd-FirstFull cq s (cq.wr_seq - cq.rd_seq) cq.rd_seq (omega arith)
          (omega (arith, s.ordered)) in
      (r, f, rw (run, adv_rd_seq))

  pub wr_moved-IsValid :
      (cq : Cq A) (w : ℕ)
      → HasShape cq
      → (cq.rd_seq < cq.wr_seq → occupied cq cq.rd_seq ≡ true)
      → FirstFree cq cq.wr_seq w
      → cq.wr_seq < w
      → IsValid (wr_moved cq w)
  wr_moved-IsValid cq w s head f moved = record {
    shape = ground arith;
    head = λ h. elim (dec_lt cq.rd_seq cq.wr_seq) [
      | yes p ↦ head p
      | no p ↦ f.passed cq.rd_seq (omega arith) h
    ];
    frontier = f.stopped;
  }

  -- At a full queue the write number stands for the slot of the read number.
  full_wraps :
      (cq : Cq A)
      → HasShape cq
      → cq.rd_seq + cq.slot_count ≤ cq.wr_seq
      → occupied cq cq.wr_seq ≡ occupied cq cq.rd_seq
  full_wraps cq s full =
      ap (λ i. (cq.slots i).valid) (mod_wrap cq.slot_count cq.rd_seq cq.wr_seq (omega arith))

  pub rd_moved-IsValid :
      (cq : Cq A) (r : ℕ)
      → HasShape cq
      → (cq.wr_seq < cq.rd_seq + cq.slot_count → occupied cq cq.wr_seq ≡ false)
      → FirstFull cq cq.rd_seq r
      → cq.rd_seq < r
      → IsValid (rd_moved cq r)
  rd_moved-IsValid cq r s frontier f moved = record {
    shape = ground arith;
    head = f.stopped;
    frontier = λ h. elim (dec_lt cq.wr_seq (cq.rd_seq + cq.slot_count)) [
      | yes p ↦ frontier p
      | no p ↦ full_wraps cq s (omega arith) ∙ f.passed cq.rd_seq (omega arith) moved
    ];
  }

  get-end : (cq : Cq A) (n : ℕ) → cq.rd_seq + cq.slot_count ≤ n → get cq (pos n) ≡ err erangehi
  unfolding get
  get-end cq n h = ground arith

  -- One round of the loop's C text: `next` is what the rounds after it give.
  abbrev pub round : Cq A → ℕ → Result CqError ℕ → Result CqError ℕ
  round cq n next = elim (get cq (pos n)) [
    | err erangehi ↦ ok n
    | err _ ↦ err epanic
    | ok i ↦ if (cq.slots i).valid then next else ok n
  ]

  scan_wr-round :
      (cq : Cq A) (left n : ℕ)
      → cq.rd_seq + cq.slot_count - n ≡ left
      → scan_wr left cq n ≡ round cq n (scan_wr (left - 1) cq (n + 1))
  unfolding scan_wr
  scan_wr-round cq zero n e = rw (get-end cq n (omega arith), round)
  scan_wr-round cq (suc left) n e = ground arith

  -- The loop of `cqAdvWrSeq` does one round of the C text and goes on from the next number, at
  -- every number and in every state of the queue: the count of rounds that the model carries stops
  -- nothing.
  pub scan_wr_loop :
      (cq : Cq A) (n : ℕ)
      → let end = cq.rd_seq + cq.slot_count in
        scan_wr (end - n) cq n ≡ round cq n (scan_wr (end - (n + 1)) cq (n + 1))
  scan_wr_loop cq n =
      rw (scan_wr-round cq _ n refl) (ap (λ k. round cq n (scan_wr k cq (n + 1))) (omega arith))
