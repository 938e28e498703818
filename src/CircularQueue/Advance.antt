-- ===== src/CircularQueue/Advance.antt =====
-- `cqAdvWrSeq` and `cqAdvRdSeq`: how far the two loops go.
use etcp.Base.{
  ℕ, zero, suc, ◌+◌, ◌≤◌, ◌<◌, ◌≡◌, inl, inr, refl, Bool, true, false, pos, ok, arith, ◌==◌,
  if◌then◌else◌, Bool-cases, ==_iff, ◌∙◌,
}
use etcp.CircularQueue.{Cq, get, scan_wr, scan_rd}
use etcp.CircularQueue.Window.{HasShape, occupied, get-inside}

from_next :
    (p : ℕ → Bool) (b : Bool) (n w : ℕ)
    → p n ≡ b
    → ((k : ℕ) → n + 1 ≤ k → k < w → p k ≡ b)
    → (k : ℕ) → n ≤ k
    → k < w
    → p k ≡ b
from_next p b n w e rest k lo hi = elim (Bool-cases (k == n)) [
  | inl same ↦ rw ((==_iff k n).0 same) e
  | inr other ↦ rest k (ground arith) hi
]

module _ {ℓ} {A : Type ℓ} where
  -- `w` is the first free number from `n` on, or the window's end.
  pub record FirstFree (cq : Cq A) (n w : ℕ) : Type 0 where
    pub from : n ≤ w
    pub upto : w ≤ cq.rd_seq + cq.slot_count
    pub passed : (k : ℕ) → n ≤ k → k < w → occupied cq k ≡ true
    pub stopped : w < cq.rd_seq + cq.slot_count → occupied cq w ≡ false

  -- `r` is the first number from `n` on that holds data, or the write number.
  pub record FirstFull (cq : Cq A) (n r : ℕ) : Type 0 where
    pub from : n ≤ r
    pub upto : r ≤ cq.wr_seq
    pub passed : (k : ℕ) → n ≤ k → k < r → occupied cq k ≡ false
    pub stopped : r < cq.wr_seq → occupied cq r ≡ true

  FirstFree-cons :
      (cq : Cq A) (n w : ℕ) → occupied cq n ≡ true → FirstFree cq (n + 1) w → FirstFree cq n w
  FirstFree-cons cq n w e f = record {
    from = omega arith;
    upto = f.upto;
    passed = λ k lo hi. from_next (occupied cq) true n w e f.passed k lo hi;
    stopped = f.stopped;
  }

  FirstFull-cons :
      (cq : Cq A) (n r : ℕ) → occupied cq n ≡ false → FirstFull cq (n + 1) r → FirstFull cq n r
  FirstFull-cons cq n r e f = record {
    from = omega arith;
    upto = f.upto;
    passed = λ k lo hi. from_next (occupied cq) false n r e f.passed k lo hi;
    stopped = f.stopped;
  }

  module _ (cq : Cq A) (n i : ℕ) (here : get cq (pos n) ≡ ok i) where
    scan_wr-suc :
        (left : ℕ)
        → scan_wr (suc left) cq n ≡ (if (cq.slots i).valid then scan_wr left cq (n + 1) else ok n)
    unfolding scan_wr
    scan_wr-suc left = rw (here, scan_wr)

    scan_rd-suc :
        (left : ℕ)
        → scan_rd (suc left) cq n ≡ (if (cq.slots i).valid then ok n else scan_rd left cq (n + 1))
    unfolding scan_rd
    scan_rd-suc left = rw (here, scan_rd)

  module _ (cq : Cq A) (s : HasShape cq) where
    pub scan_wr-FirstFree :
        (left n : ℕ)
        → cq.rd_seq ≤ n
        → n + left ≡ cq.rd_seq + cq.slot_count
        → (w : ℕ) × (scan_wr left cq n ≡ ok w) × FirstFree cq n w
    unfolding scan_wr
    scan_wr-FirstFree zero n lo e = (
      n,
      refl,
      record {
        from = omega arith;
        upto = omega arith;
        passed = λ k a b. absurd (omega arith);
        stopped = λ h. absurd (omega arith);
      },
    )
    scan_wr-FirstFree (suc left) n lo e = elim (Bool-cases (occupied cq n)) [
      | inl full ↦
          let (w, run, f) = scan_wr-FirstFree left (n + 1) (omega arith) (omega arith) in
          (
            w,
            scan_wr-suc cq n _ (get-inside s n lo (omega arith)) left ∙ rw full run,
            FirstFree-cons cq n w full f,
          )
      | inr free ↦ (
        n,
        scan_wr-suc cq n _ (get-inside s n lo (omega arith)) left ∙ rw free,
        record {
          from = omega arith;
          upto = omega arith;
          passed = λ k a b. absurd (omega arith);
          stopped = λ h. free;
        },
      )
    ]

    pub scan_rd-FirstFull :
        (left n : ℕ)
        → cq.rd_seq ≤ n
        → n + left ≡ cq.wr_seq
        → (r : ℕ) × (scan_rd left cq n ≡ ok r) × FirstFull cq n r
    unfolding scan_rd
    scan_rd-FirstFull zero n lo e = (
      n,
      refl,
      record {
        from = omega arith;
        upto = omega arith;
        passed = λ k a b. absurd (omega arith);
        stopped = λ h. absurd (omega arith);
      },
    )
    scan_rd-FirstFull (suc left) n lo e = elim (Bool-cases (occupied cq n)) [
      | inl full ↦ (
        n,
        scan_rd-suc cq n _ (get-inside s n lo (omega (arith, s.bounded))) left ∙ rw full,
        record {
          from = omega arith;
          upto = omega arith;
          passed = λ k a b. absurd (omega arith);
          stopped = λ h. full;
        },
      )
      | inr free ↦
          let (r, run, f) = scan_rd-FirstFull left (n + 1) (omega arith) (omega arith) in
          (
            r,
            scan_rd-suc cq n _ (get-inside s n lo (omega (arith, s.bounded))) left ∙ rw free run,
            FirstFull-cons cq n r free f,
          )
    ]
