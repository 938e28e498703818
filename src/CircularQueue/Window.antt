-- ===== src/CircularQueue/Window.antt =====
-- The shape of a queue's window, and `cqGet` on it: which slot stands for a sequence number.
use native.Mathlib.Nat.{one-le-pow}
use etcp.Base.{
  ℕ, ◌+◌, ◌-◌, ◌%◌, ◌^◌, ◌≤◌, ◌<◌, ◌≡◌, ◌≢◌, ◌⊎◌, Bool, true, false, ℤ, pos, pos_part, neg_part, ok,
  err, arith,
}
use etcp.Base.Bits.{bit_and_mask}
use etcp.CircularQueue.{erangehi, erangelo, Cq, Slot, get}

-- `n` slots stand for any `n` consecutive sequence numbers, a slot each.
pub mod-ne : (n a b : ℕ) → a < b → b < a + n → a % n ≢ b % n
mod-ne n a b h k e = grind arith

pub mod_wrap : (n a b : ℕ) → b ≡ a + n → b % n ≡ a % n
mod_wrap n a b e = rw e (grind arith)

module _ {ℓ} {A : Type ℓ} where
  -- What the fields say of one another whatever the slots hold.
  pub record HasShape (cq : Cq A) : Type 0 where
    pub count_pow : cq.slot_count ≡ 2 ^ cq.slot_count_log2
    pub mask : cq.seq_mask ≡ cq.slot_count - 1
    pub ordered : cq.rd_seq ≤ cq.wr_seq
    pub bounded : cq.wr_seq ≤ cq.rd_seq + cq.slot_count
    pub rd_min : cq.rd_min ≡ cq.rd_seq
    pub wr_min : cq.wr_min ≡ cq.wr_seq
    pub wr_max : cq.wr_max ≡ cq.rd_seq + cq.slot_count
    pub rd_max : (cq.rd_max ≡ cq.wr_seq) ⊎ (cq.rd_max ≡ cq.wr_seq + 1)

  -- The slot that stands for a sequence number, and whether it holds data.
  abbrev pub slot_of : Cq A → ℕ → Slot A
  slot_of cq n = cq.slots (n % cq.slot_count)

  abbrev pub occupied : Cq A → ℕ → Bool
  occupied cq n = (slot_of cq n).valid

  -- The read number stops at data, and the write number at a free slot.
  pub record IsValid (cq : Cq A) : Type 0 where
    pub shape : HasShape cq
    pub head : cq.rd_seq < cq.wr_seq → occupied cq cq.rd_seq ≡ true
    pub frontier : cq.wr_seq < cq.rd_seq + cq.slot_count → occupied cq cq.wr_seq ≡ false

  module _ {cq : Cq A} (s : HasShape cq) where
    pub slot_count_pos : 0 < cq.slot_count
    slot_count_pos = omega (arith, one-le-pow cq.slot_count_log2 2, s.count_pow)

    pub get-below : (n : ℤ) → pos_part n < cq.rd_seq + neg_part n → get cq n ≡ err erangelo
    unfolding get
    get-below n h = ground arith

    pub get-above : (n : ℕ) → cq.rd_seq + cq.slot_count ≤ n → get cq (pos n) ≡ err erangehi
    unfolding get
    get-above n h = ground arith

    pub get-inside :
        (n : ℕ)
        → cq.rd_seq ≤ n
        → n < cq.rd_seq + cq.slot_count
        → get cq (pos n) ≡ ok (n % cq.slot_count)
    unfolding get
    get-inside n lo hi = ground (arith, bit_and_mask cq.slot_count_log2 n)
