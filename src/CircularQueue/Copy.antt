-- ===== src/CircularQueue/Copy.antt =====
-- `cqPush` and `cqPull` of src/CircularQueue.c: what comes out is what went in, and how much of it.
use mathlib.Core.Path.{ap₂}
use etcp.Base.{
  ℕ, ◌+◌, ◌%◌, ◌≤◌, ◌<◌, ◌≡◌, ◌≢◌, refl, true, false, ℤ, pos, min, arith, Buffer, ap, ◌∙◌, sym,
  ==_refl, ◌==◌, ltb_of_le, if◌then◌else◌,
}
use etcp.CircularQueue.{CqError, enoerr, enochange, etrunc, Cq}
use etcp.CircularQueue.Slots.{commit_slot, push, pull, write_buff, filled}
use etcp.CircularQueue.Window.{HasShape, IsValid, occupied, slot_of, get-inside}
use etcp.CircularQueue.Invariant.{commit_slot-IsValid, write_buff-IsValid}
use etcp.CircularQueue.Outcomes.{Commits, low, high, long, taken, waits, moves, commit_slot-Commits}

min_of_le : (a b : ℕ) → a ≤ b → min a b ≡ a
min_of_le a b h = omega arith

module _ {ℓ} {A : Type ℓ} where
  -- A commit that is accepted fills the slot and leaves the window's start and size.
  record Fills (cq : Cq A) (k len : ℕ) (after : Cq A) : Type ℓ where
    slots : after.slots ≡ (filled cq (k % cq.slot_count) len).slots
    rd_seq : after.rd_seq ≡ cq.rd_seq
    slot_count : after.slot_count ≡ cq.slot_count

  Commits-Fills :
      (cq : Cq A) (k len : ℕ) {r : CqError × Cq A}
      → cq.rd_seq ≤ k
      → k < cq.rd_seq + cq.slot_count
      → occupied cq k ≡ false
      → len ≤ (slot_of cq k).len
      → Commits cq (pos k) len r
      → Fills cq k len r.1
  Commits-Fills cq k len lo hi free fits (low h e) = absurd (omega arith)
  Commits-Fills cq k len lo hi free fits (high j at h e) = absurd (ground arith)
  Commits-Fills cq k len lo hi free fits (long j at h e) = absurd (ground (arith, at.number))
  Commits-Fills cq k len lo hi free fits (taken j at h f e) = absurd (ground (arith, at.number))
  Commits-Fills cq k len lo hi free fits (waits j at h f ne e) =
      let same : k ≡ j = ground (arith, at.number) in
      rw (e, same) (record { slots = refl; rd_seq = refl; slot_count = refl })
  Commits-Fills cq k len lo hi free fits (moves w at h f gt first e) =
      let same : k ≡ cq.wr_seq = ground (arith, at.number) in
      rw (e, same) (record { slots = refl; rd_seq = refl; slot_count = refl })

  Commits-code :
      (cq : Cq A) (k len : ℕ) {r : CqError × Cq A}
      → cq.rd_seq ≤ k
      → k < cq.rd_seq + cq.slot_count
      → occupied cq k ≡ false
      → len ≤ (slot_of cq k).len
      → Commits cq (pos k) len r
      → r.0 ≡ (if k == cq.wr_seq then enoerr else enochange)
  Commits-code cq k len lo hi free fits (low h e) = absurd (omega arith)
  Commits-code cq k len lo hi free fits (high j at h e) = absurd (ground arith)
  Commits-code cq k len lo hi free fits (long j at h e) = absurd (ground (arith, at.number))
  Commits-code cq k len lo hi free fits (taken j at h f e) = absurd (ground (arith, at.number))
  Commits-code cq k len lo hi free fits (waits j at h f ne e) =
      let apart : (k == cq.wr_seq) ≡ false = ground (arith, at.number, ne) in rw (e, apart) refl
  Commits-code cq k len lo hi free fits (moves w at h f gt first e) =
      let same : k ≡ cq.wr_seq = ground (arith, at.number) in
      rw e (
        ap (λ b. if b then enoerr else enochange)
          (sym (ap (λ j. j == cq.wr_seq) same ∙ ==_refl cq.wr_seq)))

  Fills-slot :
      (cq : Cq A) (k len : ℕ) (after : Cq A)
      → Fills cq k len after
      → slot_of after k ≡ record { len = len; buff = (slot_of cq k).buff; valid = true }
  Fills-slot cq k len after f =
      ap₂ (λ slots count. slots (k % count)) f.slots f.slot_count
      ∙ ap
          (λ t.
            if t
            then record { len = len; buff = (slot_of cq k).buff; valid = true }
            else slot_of cq k)
          (==_refl (k % cq.slot_count))

  pub write_buff-slot :
      (cq : Cq A) (k : ℕ) (x : A)
      → slot_of (write_buff cq (k % cq.slot_count) x) k ≡ record (slot_of cq k) { buff = x }
  write_buff-slot cq k x =
      ap (λ t. if t then record (slot_of cq k) { buff = x } else slot_of cq k)
        (==_refl (k % cq.slot_count))

module _ {ℓ} {A : Type ℓ} ⦃b : Buffer A⦄ where
  pub push_run :
      (cq : Cq A) (src : A) (len k : ℕ)
      → HasShape cq
      → cq.rd_seq ≤ k
      → k < cq.rd_seq + cq.slot_count
      → occupied cq k ≡ false
      → len ≤ (slot_of cq k).len
      → push cq src len (pos k)
        ≡ (enoerr, len, write_buff cq (k % cq.slot_count) (b.copy (slot_of cq k).buff src len))
  unfolding push
  push_run cq src len k s lo hi free fits = rw (
    get-inside s k lo hi,
    push,
    free,
    min_of_le len (slot_of cq k).len fits,
    ltb_of_le len len (omega arith),
  )

  pub pull_run :
      (cq : Cq A) (dst : A) (len k : ℕ)
      → HasShape cq
      → cq.rd_seq ≤ k
      → k < cq.rd_seq + cq.slot_count
      → occupied cq k ≡ true
      → len ≤ (slot_of cq k).len
      → pull cq dst len (pos k) ≡ (enoerr, b.copy dst (slot_of cq k).buff len, len)
  unfolding pull
  pull_run cq dst len k s lo hi full fits = rw (
    get-inside s k lo hi,
    pull,
    full,
    min_of_le len (slot_of cq k).len fits,
    ltb_of_le (slot_of cq k).len len fits,
  )

  -- What `cqPull` reads after a commit of the slot.
  pull_committed :
      (cq : Cq A) (dst : A) (len k : ℕ)
      → IsValid cq
      → cq.rd_seq ≤ k
      → k < cq.rd_seq + cq.slot_count
      → occupied cq k ≡ false
      → len ≤ (slot_of cq k).len
      → pull (commit_slot cq (pos k) len).1 dst len (pos k)
        ≡ (enoerr, b.copy dst (slot_of cq k).buff len, len)
  pull_committed cq dst len k v lo hi free fits =
      let after = (commit_slot cq (pos k) len).1 in
      let f = Commits-Fills cq k len lo hi free fits (commit_slot-Commits cq (pos k) len v) in
      let slot = Fills-slot cq k len after f in
      pull_run after dst len k (commit_slot-IsValid cq (pos k) len v).shape
        (omega (arith, f.rd_seq)) (omega (arith, f.rd_seq, f.slot_count)) (ap (λ t. t.valid) slot)
        (omega (arith, ap (λ t. t.len) slot))
      ∙ ap (λ t. (enoerr, b.copy dst t.buff len, len)) slot

  -- Whatever the caller pushes to a free slot of the window, no longer than the slot's length and
  -- than the queue was made for, and commits, a pull of the same length hands back: the push and
  -- the pull succeed, the commit answers cqENOERR at the write number and cqENOCHANGE beyond it, and
  -- the pulled buffer is a direct copy of the pushed one.
  pub push-commit-pull :
      (cq : Cq A) (src dst : A) (len k : ℕ)
      → IsValid cq
      → cq.rd_seq ≤ k
      → k < cq.rd_seq + cq.slot_count
      → occupied cq k ≡ false
      → len ≤ (slot_of cq k).len
      → len ≤ cq.slot_data_size
      → let (e, n, pushed) = push cq src len (pos k) in
        let committed = commit_slot pushed (pos k) n in
        (e ≡ enoerr)
        × (n ≡ len)
        × (committed.0 ≡ (if k == cq.wr_seq then enoerr else enochange))
        × (pull committed.1 dst n (pos k) ≡ (enoerr, b.copy dst src len, len))
  push-commit-pull cq src dst len k v lo hi free fits made_for =
      let i = k % cq.slot_count in
      let x = b.copy (slot_of cq k).buff src len in
      let written = write_buff cq i x in
      let valid = write_buff-IsValid cq i x v in
      let unfilled = ap (λ t. t.valid) (write_buff-slot cq k x) ∙ free in
      let space : len ≤ (slot_of written k).len =
        omega (arith, ap (λ t. t.len) (write_buff-slot cq k x)) in
      rw (push_run cq src len k v.shape lo hi free fits) (
        refl,
        refl,
        Commits-code written k len lo hi unfilled space
            (commit_slot-Commits written (pos k) len valid),
        pull_committed written dst len k valid lo hi unfilled space
            ∙ ap (λ t. (enoerr, b.copy dst t.buff len, len)) (write_buff-slot cq k x)
            ∙ ap (λ y. (enoerr, y, len)) (b.copy-copy dst (slot_of cq k).buff src len),
      )

  -- `cqPull` never answers cqETRUNC, whatever the queue holds and however short the caller's
  -- buffer.
  pub pull-ne-etrunc : (cq : Cq A) (dst : A) (len : ℕ) (n : ℤ) → (pull cq dst len n).0 ≢ etrunc
  unfolding pull
  pull-ne-etrunc cq dst len n = ground arith
