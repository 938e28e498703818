-- ===== src/CircularQueue/Limits.antt =====
-- Where src/CircularQueue.c leaves its contract: slots that are released, and data that is
-- committed out of order.
use etcp.Base.{
  ℕ, ◌+◌, ◌%◌, ◌≤◌, ◌<◌, ◌≡◌, refl, true, false, pos, arith, Buffer, ap, ◌∙◌, ==_refl,
  if◌then◌else◌, ◌+ℤ◌,
}
use etcp.CircularQueue.{CqError, enoerr, Cq, sizeof_slot}
use etcp.CircularQueue.Slots.{commit_slot, release_slot, push, filled, emptied}
use etcp.CircularQueue.Window.{IsValid, occupied, slot_of, mod-ne}
use etcp.CircularQueue.Outcomes.{
  commit_moves, Releases, low, high, vacant, waits, moves, release_slot-Releases,
  commit_slot-Commits,
}
use etcp.CircularQueue.Invariant.{release_slot-IsValid}
use etcp.CircularQueue.Copy.{push_run}

module _ {ℓ} {A : Type ℓ} where
  emptied_slot :
      (cq : Cq A) (i : ℕ)
      → (emptied cq i).slots i ≡ record (cq.slots i) { len = cq.slot_size; valid = false }
  emptied_slot cq i =
      ap (λ t. if t then record (cq.slots i) { len = cq.slot_size; valid = false } else cq.slots i)
        (==_refl i)

  -- A release that is accepted empties the slot.
  released_slot :
      (cq : Cq A) (k : ℕ) {r : CqError × Cq A}
      → cq.rd_seq ≤ k
      → k < cq.rd_seq + cq.slot_count
      → occupied cq k ≡ true
      → Releases cq (pos k) r
      → (r.1.slots (k % cq.slot_count)
          ≡ record (slot_of cq k) { len = cq.slot_size; valid = false })
        × (r.1.slot_count ≡ cq.slot_count)
  released_slot cq k lo hi full (low h e) = absurd (omega arith)
  released_slot cq k lo hi full (high j at h e) = absurd (ground arith)
  released_slot cq k lo hi full (vacant j at h e) = absurd (ground (arith, at.number))
  released_slot cq k lo hi full (waits j at h ne e) =
      let same : k ≡ j = ground (arith, at.number) in
      rw (e, same) (emptied_slot cq (j % cq.slot_count), refl)
  released_slot cq k lo hi full (moves m at h gt f e) =
      let same : k ≡ cq.rd_seq = ground (arith, at.number) in
      rw (e, same) (emptied_slot cq (cq.rd_seq % cq.slot_count), refl)

  -- Two slots committed in the wrong order: the write number passes both, and `readable` counts
  -- one.
  readable_undercounts :
      (cq : Cq A) (len : ℕ)
      → IsValid cq
      → cq.wr_seq + 1 < cq.rd_seq + cq.slot_count
      → occupied cq (cq.wr_seq + 1) ≡ true
      → len ≤ (slot_of cq cq.wr_seq).len
      → let (e, after) = commit_slot cq (pos cq.wr_seq) len in
        (e ≡ enoerr) × (cq.wr_seq + 2 ≤ after.wr_seq) × (after.readable ≡ cq.readable +ℤ pos 1)
  readable_undercounts cq len v space next fits =
      let low : cq.wr_seq < cq.rd_seq + cq.slot_count = omega arith in
      let (w, gt, f, run) =
        commit_moves cq len low v.shape.ordered (v.frontier low) fits
          (commit_slot-Commits cq (pos cq.wr_seq) len v) in
      let after = filled cq (cq.wr_seq % cq.slot_count) len in
      let there =
        mod-ne cq.slot_count cq.wr_seq (cq.wr_seq + 1) (omega arith)
          (omega (arith, v.shape.ordered)) in
      let past : cq.wr_seq + 2 ≤ w = ground (arith, f.stopped) in rw run (refl, past, refl)

  -- A released slot is lent at the length of the whole slot, its header included: `cqPush` accepts
  -- as many bytes there, untruncated, and they end beyond the slot.
  pub release-push-overruns :
      ⦃b : Buffer A⦄ (cq : Cq A) (src : A) (k m : ℕ)
      → IsValid cq
      → cq.rd_seq ≤ k
      → k < cq.rd_seq + cq.slot_count
      → occupied cq k ≡ true
      → (release_slot cq (pos k)).1.rd_seq ≤ m
      → m < (release_slot cq (pos k)).1.rd_seq + (release_slot cq (pos k)).1.slot_count
      → m % cq.slot_count ≡ k % cq.slot_count
      → let (e, copied, _) = push (release_slot cq (pos k)).1 src cq.slot_size (pos m) in
        (e ≡ enoerr) × (cq.slot_size < sizeof_slot + copied)
  release-push-overruns cq src k m v lo hi full from upto same =
      let after = (release_slot cq (pos k)).1 in
      let (slot, count) = released_slot cq k lo hi full (release_slot-Releases cq (pos k) v) in
      let lent : slot_of after m ≡ record (slot_of cq k) { len = cq.slot_size; valid = false } =
        ap after.slots (ap (λ c. m % c) count ∙ same) ∙ slot in
      let shape = (release_slot-IsValid cq (pos k) v).shape in
      let run =
        push_run after src cq.slot_size m shape from upto (ap (λ t. t.valid) lent)
          (omega (arith, ap (λ t. t.len) lent)) in
      rw run (refl, omega arith)
