-- ===== src/LinkedList/Count.antt =====
-- `slotCount` of src/LinkedList.c against the slots that are there, and the end of `llDelete`.
use etcp.Base.{
  ℕ, zero, suc, ◌≤◌, ◌≡◌, ◌≢◌, refl, sym, ap, ◌∙◌, Bool, true, false, some, List, [], ◌∷◌, ℤ, pos,
  ◌+ℤ◌, ◌-ℤ◌, ltb_ℤ, arith, Buffer, Bool-cases, inl, inr, pos_part, neg_part, length, ◌==◌,
  +ℤ_parts, -ℤ_parts, eq_of_parts,
}
use etcp.LinkedList.{Ll, LlSlot, push_seq_ord, release_head, delete_loop, new_slot, get_first}
use etcp.LinkedList.Order.{insert, push_seq_ord_run, stored, linked}

minus_minus : (c : ℤ) (n : ℕ) → c -ℤ pos 1 -ℤ pos n ≡ c -ℤ pos (suc n)
minus_minus c n =
    eq_of_parts (c -ℤ pos 1 -ℤ pos n) (c -ℤ pos (suc n))
      (omega (arith, -ℤ_parts c (pos 1), -ℤ_parts (c -ℤ pos 1) (pos n), -ℤ_parts c (pos (suc n))))

minus_zero : (c : ℤ) → c -ℤ pos 0 ≡ c
minus_zero c = eq_of_parts (c -ℤ pos 0) c (omega (arith, -ℤ_parts c (pos 0)))

module _ {ℓ} {A : Type ℓ} where
  -- The count is that of the slots.
  abbrev pub IsCounted : Ll A → Type 0
  IsCounted ll = ll.slot_count ≡ pos (length ll.slots)

  length-insert :
      (new : LlSlot A) (slots : List (LlSlot A)) → length (insert new slots) ≡ suc (length slots)
  length-insert new [] = refl
  length-insert new (slot ∷ rest) = elim (Bool-cases (ltb_ℤ new.seq_num slot.seq_num)) [
    | inl less ↦ rw less refl
    | inr more ↦ rw more (ap suc (length-insert new rest))
  ]

  linked-IsCounted : (ll : Ll A) (slot : LlSlot A) → IsCounted ll → IsCounted (linked ll slot)
  linked-IsCounted ll slot counted =
      let one : pos (length ll.slots) +ℤ pos 1 ≡ pos (suc (length ll.slots)) =
        eq_of_parts (pos (length ll.slots) +ℤ pos 1) (pos (suc (length ll.slots)))
          (omega (arith, +ℤ_parts (pos (length ll.slots)) (pos 1))) in
      ap (λ c. c +ℤ pos 1) counted ∙ one ∙ ap pos (sym (length-insert slot ll.slots))

  -- The list without its first slots, one counted off for each.
  delete_loop-slots :
      (fuel : ℕ) (ll : Ll A) (slots : List (LlSlot A))
      → suc (length slots) ≤ fuel
      → delete_loop fuel (record ll { slots = slots })
        ≡ some (record ll { slot_count = ll.slot_count -ℤ pos (length slots); slots = [] })
  unfolding delete_loop get_first release_head
  delete_loop-slots zero ll slots enough = absurd (omega arith)
  delete_loop-slots (suc fuel) ll [] enough =
      ap (λ c. some (record ll { slot_count = c; slots = [] })) (sym (minus_zero ll.slot_count))
  delete_loop-slots (suc fuel) ll (slot ∷ rest) enough =
      delete_loop-slots fuel (record ll { slot_count = ll.slot_count -ℤ pos 1 }) rest (omega arith)
      ∙ ap (λ c. some (record ll { slot_count = c; slots = [] }))
          (minus_minus ll.slot_count (length rest))

  -- Where the count is right, the loop of `llDelete` ends, with fuel for one turn more than there
  -- are slots, and leaves a list that has no slot and counts none.
  pub delete_loop-ends :
      (fuel : ℕ) (ll : Ll A)
      → IsCounted ll
      → suc (length ll.slots) ≤ fuel
      → delete_loop fuel ll ≡ some (record ll { slot_count = pos 0; slots = [] })
  delete_loop-ends fuel ll counted enough =
      let none_left : ll.slot_count -ℤ pos (length ll.slots) ≡ pos 0 =
        eq_of_parts (ll.slot_count -ℤ pos (length ll.slots)) (pos 0) (
          omega (
            arith,
            -ℤ_parts ll.slot_count (pos (length ll.slots)),
            ap pos_part counted,
            ap neg_part counted,
          )) in
      delete_loop-slots fuel ll ll.slots enough
      ∙ ap (λ c. some (record ll { slot_count = c; slots = [] })) none_left

module _ {ℓ} {A : Type ℓ} ⦃buffer : Buffer A⦄ where
  -- A push counts the slot that it adds, and counts none where it adds none.
  pub push_seq_ord-IsCounted :
      (got_slot : Bool) (zeroed : A) (ll : Ll A) (src : A) (len : ℕ) (seq_num : ℤ)
      → IsCounted ll
      → IsCounted (push_seq_ord got_slot zeroed ll src len seq_num).2
  unfolding push_seq_ord new_slot
  push_seq_ord-IsCounted got_slot zeroed ll src len seq_num counted = elim (Bool-cases (len == 0)) [
    | inl nothing ↦ rw nothing counted
    | inr some_bytes ↦
        elim got_slot as (λ got. IsCounted (push_seq_ord got zeroed ll src len seq_num).2) [
          | false ↦ rw some_bytes counted
          | true ↦
              rw (push_seq_ord_run zeroed ll src len seq_num (ground arith))
                (linked-IsCounted ll (stored zeroed ll src len seq_num) counted)
        ]
  ]

  -- After one release of an empty list whose count is right, and a push of at least one byte that
  -- finds memory, the list has one slot and counts 0.
  release-push-undercounts :
      (zeroed : A) (ll : Ll A) (src : A) (len : ℕ) (seq_num : ℤ)
      → ll.slots ≡ []
      → IsCounted ll
      → len ≢ 0
      → let (_, _, after) = push_seq_ord true zeroed (release_head ll) src len seq_num in
        (length after.slots ≡ 1) × (after.slot_count ≡ pos 0)
  unfolding release_head ◌-ℤ◌ ◌+ℤ◌
  release-push-undercounts zeroed ll src len seq_num empty counted some_bytes =
      rw (push_seq_ord_run zeroed (release_head ll) src len seq_num some_bytes) (one, none_counted)
    where
      one :
          length (insert (stored zeroed (release_head ll) src len seq_num) (release_head ll).slots)
          ≡ 1
      one = rw empty refl

      none_counted : ll.slot_count -ℤ pos 1 +ℤ pos 1 ≡ pos 0
      none_counted =
          let zero_slots : ll.slot_count ≡ pos 0 = counted ∙ ap (λ l. pos (length l)) empty in
          ap (λ c. c -ℤ pos 1 +ℤ pos 1) zero_slots
