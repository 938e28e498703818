-- ===== src/CircularQueue.antt =====
-- src/CircularQueue.h and the three primitive operations of src/CircularQueue.c: a window of slots
-- between a read and a write sequence number. Pointers are not NULL.
-- The payload type is a parameter: the queues hold bytes, packets and sockets.
-- `__slots` is an array read at an index. What the compiler leaves undefined is left out: a shift
-- `1 << slotCountLog2` beyond an `int`.
pub mod Slots
pub mod Window
pub mod Advance
pub mod Moved
pub mod Invariant
pub mod Outcomes
pub mod Fifo
pub mod Copy
pub mod Limits
pub mod Next
use etcp.Base.{
  ℕ, zero, suc, ◌+◌, ◌-◌, ◌*◌, ◌/◌, ◌^◌, bit_and, Bool, false, ◌||◌, Option, none, some, ℤ, pos,
  pos_part, ◌+ℤ◌, ◌-ℤ◌, sub_ℕ, ltb_ℤ, leb_ℤ, ◌==◌, if◌then◌else◌, Result, ok, err,
}

-- `cqError_t`.
pub data CqError : Type 0 where
  enoerr enomem enoslot etrunc erangehi erangelo ewrongslot epanic enullparam enochange : CqError

-- `cqSlot_t`.
pub record Slot {ℓ} (A : Type ℓ) : Type ℓ where
  pub len : ℕ
  pub buff : A
  pub valid : Bool

-- `cq_t`. The sequence numbers start at 0 and only grow; the four counters may go below 0.
pub record Cq {ℓ} (A : Type ℓ) : Type ℓ where
  pub slot_data_size : ℕ
  pub rd_min : ℕ
  pub rd_max : ℕ
  pub rd_rng : ℤ
  pub readable : ℤ
  pub wr_min : ℕ
  pub wr_max : ℕ
  pub wr_rng : ℤ
  pub available : ℤ
  pub outstanding : ℤ
  pub rd_seq : ℕ
  pub wr_seq : ℕ
  pub slot_count_log2 : ℕ
  pub slot_count : ℕ
  pub seq_mask : ℕ
  pub slot_size : ℕ
  pub slots : ℕ → Slot A

-- `sizeof(cqSlot_t)`, packed.
abbrev pub sizeof_slot : ℕ
sizeof_slot = 17

-- `(n + sizeof(uint64_t) - 1) & ~(sizeof(uint64_t) - 1)`.
abbrev pub round_up : ℕ → ℕ
round_up n = (n + 8 - 1) / 8 * 8

module _ {ℓ} {A : Type ℓ} where
  -- `got_queue` and `got_slots` tell whether the two calls of calloc succeed; `zeroed` is a buffer
  -- of zero bytes.
  unfoldable pub new : ℤ → ℤ → Bool → Bool → A → Option (Cq A)
  new buff_size slot_count_log2 got_queue got_slots zeroed =
      if ltb_ℤ buff_size (pos 0) || ltb_ℤ slot_count_log2 (pos 0)
      then none
      else (if got_queue then (if got_slots then some fresh else none) else none)
    where
      count : ℕ
      count = 2 ^ pos_part slot_count_log2

      fresh : Cq A
      fresh = record {
        slot_data_size = pos_part buff_size;
        rd_min = 0;
        rd_max = 0;
        rd_rng = pos 0;
        readable = pos 0;
        wr_min = 0;
        wr_max = 0 + count;
        wr_rng = pos 0;
        available = pos count;
        outstanding = pos 0;
        rd_seq = 0;
        wr_seq = 0;
        slot_count_log2 = pos_part slot_count_log2;
        slot_count = count;
        seq_mask = count - 1;
        slot_size = round_up (pos_part buff_size + sizeof_slot);
        slots = λ i. record { len = pos_part buff_size; buff = zeroed; valid = false };
      }

  -- `cqGet`: the index of the slot that `*slot_o` is set to.
  unfoldable pub get : Cq A → ℤ → Result CqError ℕ
  get cq seq_num =
      if ltb_ℤ seq_num (pos cq.rd_seq)
      then err erangelo
      else (if leb_ℤ (pos (cq.rd_seq + cq.slot_count)) seq_num
          then err erangehi
          else ok (bit_and (pos_part seq_num) cq.seq_mask))

  -- The loop of `cqAdvWrSeq` from `seq_num` on. The first argument counts the sequence numbers that
  -- are left below the window's end; at 0 the code's `cqGet` answers cqERANGEHI.
  unfoldable pub scan_wr : ℕ → Cq A → ℕ → Result CqError ℕ
  scan_wr zero cq seq_num = ok seq_num
  scan_wr (suc left) cq seq_num =
      let rest = scan_wr left cq (seq_num + 1) in
      elim (get cq (pos seq_num)) [
        | err erangehi ↦ ok seq_num
        | err _ ↦ err epanic
        | ok i ↦ if (cq.slots i).valid then rest else ok seq_num
      ]

  -- `cqAdvWrSeq`.
  unfoldable pub adv_wr_seq : Cq A → CqError × Cq A
  adv_wr_seq cq = elim (scan_wr (cq.rd_seq + cq.slot_count - cq.wr_seq) cq cq.wr_seq) [
    | err e ↦ (e, cq)
    | ok seq_num ↦ if seq_num == cq.wr_seq then (enochange, cq) else (
      enoerr,
      record cq {
        wr_seq = seq_num;
        wr_min = seq_num;
        wr_max = cq.rd_seq + cq.slot_count;
        rd_max = seq_num;
        outstanding = cq.outstanding -ℤ pos 1;
        readable = cq.readable +ℤ pos 1;
        available = cq.available -ℤ pos 1;
      },
    )
  ]

  -- The loop of `cqAdvRdSeq` from `seq_num` on; the first argument counts the numbers left below
  -- `wrSeq`, where the loop stops.
  unfoldable pub scan_rd : ℕ → Cq A → ℕ → Result CqError ℕ
  scan_rd zero cq seq_num = ok seq_num
  scan_rd (suc left) cq seq_num =
      let rest = scan_rd left cq (seq_num + 1) in
      elim (get cq (pos seq_num)) [
        | err _ ↦ err epanic
        | ok i ↦ if (cq.slots i).valid then ok seq_num else rest
      ]

  -- `cqAdvRdSeq`.
  unfoldable pub adv_rd_seq : Cq A → CqError × Cq A
  adv_rd_seq cq = elim (scan_rd (cq.wr_seq - cq.rd_seq) cq cq.rd_seq) [
    | err e ↦ (e, cq)
    | ok seq_num ↦ if seq_num == cq.rd_seq then (enochange, cq) else (
      enoerr,
      record cq {
        rd_seq = seq_num;
        rd_min = seq_num;
        rd_max = cq.wr_min + 1;
        wr_max = seq_num + cq.slot_count;
        wr_rng = sub_ℕ (seq_num + cq.slot_count) cq.wr_min;
        rd_rng = sub_ℕ (cq.wr_min + 1) seq_num;
        readable = cq.readable -ℤ pos 1;
        available = cq.available +ℤ pos 1;
      },
    )
  ]
