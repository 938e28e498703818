-- ===== src/CircularQueue/Outcomes.antt =====
-- Every outcome of `cqCommitSlot` and `cqReleaseSlot` in src/CircularQueue.c, errors included.
use native.Mathlib.Decide.{dec_lt, ℕ_discrete}
use etcp.Base.{
  ℕ, ◌+◌, ◌%◌, ◌≤◌, ◌<◌, ◌≡◌, ◌≢◌, inl, inr, refl, true, false, ℤ, pos, negsuc, pos_part, neg_part,
  arith, Bool-cases, ltb_of_le, sym,
}
use etcp.CircularQueue.{
  CqError, enoerr, enochange, erangelo, erangehi, epanic, ewrongslot, Cq, adv_wr_seq, adv_rd_seq,
}
use etcp.CircularQueue.Slots.{commit_slot, release_slot, filled, emptied}
use etcp.CircularQueue.Window.{
  IsValid, occupied, slot_of, get-below, get-above, get-inside, mod-ne, slot_count_pos,
}
use etcp.CircularQueue.Advance.{FirstFree, FirstFull}
use etcp.CircularQueue.Moved.{wr_moved, rd_moved, adv_wr_seq-FirstFree, adv_rd_seq-FirstFull}

module _ {ℓ} {A : Type ℓ} where
  -- A number of the window.
  pub record IsInside (cq : Cq A) (n : ℤ) (k : ℕ) : Type 0 where
    pub number : n ≡ pos k
    pub low : cq.rd_seq ≤ k
    pub high : k < cq.rd_seq + cq.slot_count

  pub other_slot :
      (cq : Cq A) (a b : ℕ)
      → cq.rd_seq ≤ a
      → a < cq.rd_seq + cq.slot_count
      → cq.rd_seq ≤ b
      → b < cq.rd_seq + cq.slot_count
      → a ≢ b
      → a % cq.slot_count ≢ b % cq.slot_count
  other_slot cq a b la ha lb hb ne e = elim (dec_lt a b) [
    | yes p ↦ mod-ne cq.slot_count a b p (omega arith) e
    | no p ↦ mod-ne cq.slot_count b a (omega arith) (omega arith) (sym e)
  ]

  -- Where a commit of `len` bytes at `n` may end: out of the window on either side, too long for
  -- the slot, at a slot that is taken, filling a slot beyond the write number, or filling the slot
  -- at the write number, which moves on to the next free number.
  pub data Commits (cq : Cq A) (n : ℤ) (len : ℕ) (r : CqError × Cq A) : Type ℓ where
    low : pos_part n < cq.rd_seq + neg_part n → r ≡ (erangelo, cq) → Commits cq n len r
    high :
        (k : ℕ)
        → n ≡ pos k
        → cq.rd_seq + cq.slot_count ≤ k
        → r ≡ (erangehi, cq)
        → Commits cq n len r
    long :
        (k : ℕ) → IsInside cq n k → (slot_of cq k).len < len → r ≡ (epanic, cq) → Commits cq n len r
    taken :
        (k : ℕ)
        → IsInside cq n k
        → len ≤ (slot_of cq k).len
        → occupied cq k ≡ true
        → r ≡ (ewrongslot, cq)
        → Commits cq n len r
    waits :
        (k : ℕ)
        → IsInside cq n k
        → len ≤ (slot_of cq k).len
        → occupied cq k ≡ false
        → k ≢ cq.wr_seq
        → r ≡ (enochange, filled cq (k % cq.slot_count) len)
        → Commits cq n len r
    moves :
        (w : ℕ)
        → IsInside cq n cq.wr_seq
        → len ≤ (slot_of cq cq.wr_seq).len
        → occupied cq cq.wr_seq ≡ false
        → cq.wr_seq < w
        → FirstFree (filled cq (cq.wr_seq % cq.slot_count) len) cq.wr_seq w
        → r ≡ (enoerr, wr_moved (filled cq (cq.wr_seq % cq.slot_count) len) w)
        → Commits cq n len r

  -- Where a release at `n` may end: out of the window on either side, at a slot that is free,
  -- emptying a slot behind data that is still there, or emptying the slot at the read number, which
  -- moves on to the next number that holds data, at most up to the write number.
  pub data Releases (cq : Cq A) (n : ℤ) (r : CqError × Cq A) : Type ℓ where
    low : pos_part n < cq.rd_seq + neg_part n → r ≡ (erangelo, cq) → Releases cq n r
    high :
        (k : ℕ) → n ≡ pos k → cq.rd_seq + cq.slot_count ≤ k → r ≡ (erangehi, cq) → Releases cq n r
    vacant :
        (k : ℕ) → IsInside cq n k → occupied cq k ≡ false → r ≡ (ewrongslot, cq) → Releases cq n r
    waits :
        (k : ℕ)
        → IsInside cq n k
        → occupied cq k ≡ true
        → k ≢ cq.rd_seq
        → r ≡ (enochange, emptied cq (k % cq.slot_count))
        → Releases cq n r
    moves :
        (m : ℕ)
        → IsInside cq n cq.rd_seq
        → occupied cq cq.rd_seq ≡ true
        → cq.rd_seq < m
        → FirstFull (emptied cq (cq.rd_seq % cq.slot_count)) cq.rd_seq m
        → r ≡ (enoerr, rd_moved (emptied cq (cq.rd_seq % cq.slot_count)) m)
        → Releases cq n r

  module _ (cq : Cq A) (v : IsValid cq) (n : ℤ) (k : ℕ) (at : IsInside cq n k) where
    at_read : cq.rd_seq < cq.rd_seq + cq.slot_count
    at_read = omega (arith, slot_count_pos v.shape)

    commit_here :
        (len : ℕ)
        → len ≤ (slot_of cq k).len
        → occupied cq k ≡ false
        → k ≡ cq.wr_seq
        → Commits cq n len (adv_wr_seq (filled cq (k % cq.slot_count) len))
    commit_here len fits free here =
        let after = filled cq (cq.wr_seq % cq.slot_count) len in
        let (w, f, run) = adv_wr_seq-FirstFree after (ground arith) in
        let moved : cq.wr_seq < w = ground (arith, f.from, f.stopped, at.high) in
        rw here (
          moves w (rw here at at) (rw here at fits) (rw here at free) moved f
            (rw run (ground arith)))

    commit_beyond :
        (len : ℕ)
        → len ≤ (slot_of cq k).len
        → occupied cq k ≡ false
        → k ≢ cq.wr_seq
        → Commits cq n len (adv_wr_seq (filled cq (k % cq.slot_count) len))
    commit_beyond len fits free beyond =
        let after = filled cq (k % cq.slot_count) len in
        let (w, f, run) = adv_wr_seq-FirstFree after (ground arith) in
        let stays : w ≡ cq.wr_seq = ground (
          arith,
          f.from,
          f.upto,
          f.passed cq.wr_seq,
          v.frontier,
          v.shape.ordered,
          other_slot cq k cq.wr_seq at.low at.high,
        ) in
        waits k at fits free beyond (rw run (ground arith))

    release_here :
        occupied cq k ≡ true
        → k ≡ cq.rd_seq
        → Releases cq n (adv_rd_seq (emptied cq (k % cq.slot_count)))
    release_here full here =
        let after = emptied cq (cq.rd_seq % cq.slot_count) in
        let (m, f, run) = adv_rd_seq-FirstFull after (ground arith) in
        let filled_up : cq.rd_seq < cq.wr_seq =
          ground (arith, v.frontier, v.shape.ordered, at_read) in
        let moved : cq.rd_seq < m = ground (arith, f.from, f.stopped, filled_up) in
        rw here (moves m (rw here at at) (rw here at full) moved f (rw run (ground arith)))

    release_beyond :
        occupied cq k ≡ true
        → k ≢ cq.rd_seq
        → Releases cq n (adv_rd_seq (emptied cq (k % cq.slot_count)))
    release_beyond full beyond =
        let after = emptied cq (k % cq.slot_count) in
        let (r, f, run) = adv_rd_seq-FirstFull after (ground arith) in
        let stays : r ≡ cq.rd_seq = ground (
          arith,
          f.from,
          f.upto,
          f.passed cq.rd_seq,
          v.head,
          at_read,
          other_slot cq k cq.rd_seq at.low at.high,
        ) in
        waits k at full beyond (rw run (ground arith))

  -- In a well-formed queue `cqCommitSlot` has one of these outcomes, for every number and length.
  pub commit_slot-Commits :
      (cq : Cq A) (n : ℤ) (len : ℕ) → IsValid cq → Commits cq n len (commit_slot cq n len)
  unfolding commit_slot
  commit_slot-Commits cq (negsuc k) len v =
      low (omega arith) (rw (get-below v.shape (negsuc k) (omega arith), commit_slot))
  commit_slot-Commits cq (pos k) len v = elim (dec_lt k cq.rd_seq) [
    | yes below ↦ low (omega arith) (rw (get-below v.shape (pos k) (omega arith), commit_slot))
    | no above ↦ elim (dec_lt k (cq.rd_seq + cq.slot_count)) [
      | no out ↦ high k refl (omega arith) (rw (get-above v.shape k (omega arith), commit_slot))
      | yes inside ↦
          let at : IsInside cq (pos k) k = record {
            number = refl;
            low = omega arith;
            high = inside;
          } in
          let run = get-inside v.shape k (omega arith) inside in
          elim (dec_lt (slot_of cq k).len len) [
            | yes over ↦ long k at over (rw (run, commit_slot) (ground arith))
            | no fits ↦ elim (Bool-cases (occupied cq k)) [
              | inl full ↦ taken k at (omega arith) full (rw (run, commit_slot) (ground arith))
              | inr free ↦
                  rw (run, commit_slot)
                    (rw (ltb_of_le (slot_of cq k).len len (omega arith), free)
                      (elim (ℕ_discrete k cq.wr_seq) [
                        | yes here ↦ commit_here cq v (pos k) k at len (omega arith) free here
                        | no beyond ↦ commit_beyond cq v (pos k) k at len (omega arith) free beyond
                      ]))
            ]
          ]
    ]
  ]

  -- In a well-formed queue `cqReleaseSlot` has one of these outcomes, for every number.
  pub release_slot-Releases : (cq : Cq A) (n : ℤ) → IsValid cq → Releases cq n (release_slot cq n)
  unfolding release_slot
  release_slot-Releases cq (negsuc k) v =
      low (omega arith) (rw (get-below v.shape (negsuc k) (omega arith), release_slot))
  release_slot-Releases cq (pos k) v = elim (dec_lt k cq.rd_seq) [
    | yes below ↦ low (omega arith) (rw (get-below v.shape (pos k) (omega arith), release_slot))
    | no above ↦ elim (dec_lt k (cq.rd_seq + cq.slot_count)) [
      | no out ↦ high k refl (omega arith) (rw (get-above v.shape k (omega arith), release_slot))
      | yes inside ↦
          let at : IsInside cq (pos k) k = record {
            number = refl;
            low = omega arith;
            high = inside;
          } in
          let run = get-inside v.shape k (omega arith) inside in
          elim (Bool-cases (occupied cq k)) [
            | inr free ↦ vacant k at free (rw (run, release_slot) (ground arith))
            | inl full ↦
                rw (run, release_slot)
                  (rw full (elim (ℕ_discrete k cq.rd_seq) [
                    | yes here ↦ release_here cq v (pos k) k at full here
                    | no beyond ↦ release_beyond cq v (pos k) k at full beyond
                  ]))
          ]
    ]
  ]

  -- A commit at the write number, of a slot that is free and long enough, moves the write number.
  pub commit_moves :
      (cq : Cq A) (len : ℕ) {r : CqError × Cq A}
      → cq.wr_seq < cq.rd_seq + cq.slot_count
      → cq.rd_seq ≤ cq.wr_seq
      → occupied cq cq.wr_seq ≡ false
      → len ≤ (slot_of cq cq.wr_seq).len
      → Commits cq (pos cq.wr_seq) len r
      → let after = filled cq (cq.wr_seq % cq.slot_count) len in
        (w : ℕ) × (cq.wr_seq < w) × FirstFree after cq.wr_seq w × (r ≡ (enoerr, wr_moved after w))
  commit_moves cq len space order free fits (low h e) = absurd (omega arith)
  commit_moves cq len space order free fits (high k at h e) = absurd (ground arith)
  commit_moves cq len space order free fits (long k at h e) = absurd (ground (arith, at.number))
  commit_moves cq len space order free fits (taken k at h full e) =
      absurd (ground (arith, at.number))
  commit_moves cq len space order free fits (waits k at h f ne e) =
      absurd (ground (arith, at.number))
  commit_moves cq len space order free fits (moves w at h empty gt f e) = (w, gt, f, e)

  -- A release at the read number, of a slot that holds data, moves the read number.
  pub release_moves :
      (cq : Cq A) {r : CqError × Cq A}
      → 0 < cq.slot_count
      → occupied cq cq.rd_seq ≡ true
      → Releases cq (pos cq.rd_seq) r
      → let after = emptied cq (cq.rd_seq % cq.slot_count) in
        (m : ℕ) × (cq.rd_seq < m) × FirstFull after cq.rd_seq m × (r ≡ (enoerr, rd_moved after m))
  release_moves cq some_slot full (low h e) = absurd (omega arith)
  release_moves cq some_slot full (high k at h e) = absurd (ground arith)
  release_moves cq some_slot full (vacant k at free e) = absurd (ground (arith, at.number))
  release_moves cq some_slot full (waits k at h ne e) = absurd (ground (arith, at.number))
  release_moves cq some_slot full (moves m at h gt f e) = (m, gt, f, e)
