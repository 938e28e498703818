-- ===== src/LinkedList.antt =====
-- src/LinkedList.h and src/LinkedList.c: slots kept in the order of their sequence numbers, where
-- the transport keeps packets that arrive again after they were delivered. The chain of `__next`
-- pointers from `__head` is the list `slots`; a pointer to a slot is the list that starts there,
-- and NULL is the empty list. The pointers to the list and to the caller's variables are there;
-- `*len_io == 0` is treated. The success of `calloc` is an argument.
pub mod Order
pub mod Count
use etcp.Base.{
  ℕ, zero, suc, ◌+◌, min, Bool, Option, none, some, List, [], ◌∷◌, ℤ, pos, ◌+ℤ◌, ◌-ℤ◌, ltb_ℤ, ltb,
  ◌==◌, if◌then◌else◌, Result, ok, err, Buffer,
}
use etcp.CircularQueue.{round_up}

-- `llError_t`.
pub data LlError : Type 0 where
  enoerr enomem etrunc erange epanic enullparam enoslot : LlError

-- `llSlot_t`, less its link.
pub record LlSlot {ℓ} (A : Type ℓ) : Type ℓ where
  pub len : ℕ
  pub buff : A
  pub seq_num : ℤ

-- `ll_t`.
pub record Ll {ℓ} (A : Type ℓ) : Type ℓ where
  pub slot_data_size : ℕ
  pub slot_count : ℤ
  pub slot_size : ℕ
  pub slots : List (LlSlot A)

-- `sizeof(llSlot_t)`.
abbrev pub sizeof_ll_slot : ℕ
sizeof_ll_slot = 32

module _ {ℓ} {A : Type ℓ} where
  -- `llNew`.
  unfoldable pub new : ℕ → Bool → Option (Ll A)
  new buff_size got_ll =
      if got_ll
      then some (record {
        slot_data_size = buff_size;
        slot_count = pos 0;
        slot_size = round_up (buff_size + sizeof_ll_slot);
        slots = [];
      })
      else none

  -- `llGetFirst`: the chain from `*llSlot_o` on.
  unfoldable pub get_first : Ll A → Result LlError (LlSlot A × List (LlSlot A))
  get_first ll = elim ll.slots [ [] ↦ err enoslot | slot ∷ rest ↦ ok (slot, rest) ]

  -- `llGetNext`, from a slot and those behind it: the code, and the chain from `*llSlot_io` on.
  unfoldable pub get_next : LlSlot A × List (LlSlot A) → LlError × List (LlSlot A)
  get_next (slot, []) = (enoslot, [])
  get_next (slot, next ∷ rest) = (enoerr, next ∷ rest)

  -- The loop of `llPushSeqOrd` from `slot` on: the chain from there with `new` linked in. The call
  -- of `llGetNext` there always succeeds, as the slot has a next one.
  unfoldable pub push_loop : LlSlot A → LlSlot A → List (LlSlot A) → List (LlSlot A)
  push_loop new slot [] = slot ∷ new ∷ []
  push_loop new slot (next ∷ rest) =
      if ltb_ℤ new.seq_num next.seq_num
      then slot ∷ new ∷ next ∷ rest
      else slot ∷ push_loop new next rest

  -- What `llPushSeqOrd` makes of the chain at `__head`.
  unfoldable pub link : LlSlot A → List (LlSlot A) → List (LlSlot A)
  link new [] = new ∷ []
  link new (head ∷ rest) =
      if ltb_ℤ new.seq_num head.seq_num then new ∷ head ∷ rest else push_loop new head rest

  -- `llReleaseHead`.
  unfoldable pub release_head : Ll A → Ll A
  release_head ll = record ll {
    slot_count = ll.slot_count -ℤ pos 1;
    slots = elim ll.slots [ [] ↦ [] | head ∷ rest ↦ rest ];
  }

  -- The loop of `llDelete`, on fuel: the list that is freed at last.
  unfoldable pub delete_loop : ℕ → Ll A → Option (Ll A)
  delete_loop zero ll = none
  delete_loop (suc fuel) ll =
      let rest = delete_loop fuel (release_head ll) in
      elim (get_first ll) [ err enoslot ↦ some ll | _ ↦ rest ]

module _ {ℓ} {A : Type ℓ} ⦃b : Buffer A⦄ where
  -- `newSlot`: the code, the slot and `*len_io`; `zeroed` is the buffer that calloc gives.
  unfoldable pub new_slot : Bool → A → Ll A → A → ℕ → ℤ → LlError × Option (LlSlot A) × ℕ
  new_slot got_slot zeroed ll src len seq_num =
      let to_copy = min len ll.slot_data_size in
      if got_slot
      then (
        if ltb to_copy len then etrunc else enoerr,
        some (record { len = to_copy; buff = b.copy zeroed src to_copy; seq_num = seq_num }),
        to_copy,
      )
      else (enomem, none, len)

  -- `llPushSeqOrd`: the code, `*len_io` and the list.
  unfoldable pub push_seq_ord : Bool → A → Ll A → A → ℕ → ℤ → LlError × ℕ × Ll A
  push_seq_ord got_slot zeroed ll src len seq_num =
      if len == 0
      then (enullparam, len, ll)
      else (let (e, made, left) = new_slot got_slot zeroed ll src len seq_num in
          elim made [
            | none ↦ (e, left, ll)
            | some slot ↦ (
              e,
              left,
              record ll { slot_count = ll.slot_count +ℤ pos 1; slots = link slot ll.slots },
            )
          ])
