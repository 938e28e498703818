-- ===== src/LinkedList/Order.antt =====
-- The order that `llPushSeqOrd` of src/LinkedList.c keeps.
use etcp.Base.{
  ℕ, ◌≡◌, ◌≢◌, refl, sym, ap, Bool, true, false, List, [], ◌∷◌, ℤ, pos, ◌+ℤ◌, ◌≤ℤ◌, ltb_ℤ, ltb,
  if◌then◌else◌, arith, Buffer, Bool-cases, inl, inr, eq_of_parts, min, ◌==◌,
}
use etcp.LinkedList.{enoerr, etrunc, LlSlot, Ll, link, push_loop, push_seq_ord, new_slot}

module _ {ℓ} {A : Type ℓ} where
  -- The specification of a push: ahead of the first with a greater number.
  abbrev pub insert : LlSlot A → List (LlSlot A) → List (LlSlot A)
  insert new [] = new ∷ []
  insert new (slot ∷ rest) =
      if ltb_ℤ new.seq_num slot.seq_num then new ∷ slot ∷ rest else slot ∷ insert new rest

  push_loop-insert :
      (new slot : LlSlot A) (rest : List (LlSlot A))
      → push_loop new slot rest ≡ slot ∷ insert new rest
  unfolding push_loop
  push_loop-insert new slot [] = refl
  push_loop-insert new slot (next ∷ rest) = elim (Bool-cases (ltb_ℤ new.seq_num next.seq_num)) [
    | inl less ↦ rw less refl
    | inr more ↦ rw more (ap (λ t. slot ∷ t) (push_loop-insert new next rest))
  ]

  pub link-insert : (new : LlSlot A) (slots : List (LlSlot A)) → link new slots ≡ insert new slots
  unfolding link
  link-insert new [] = refl
  link-insert new (head ∷ rest) = elim (Bool-cases (ltb_ℤ new.seq_num head.seq_num)) [
    | inl less ↦ rw less refl
    | inr more ↦ rw more (push_loop-insert new head rest)
  ]

  -- Each number is at most the next one, the first at least `low`.
  pub data IsSortedFrom : ℤ → List (LlSlot A) → Type ℓ where
    done : {low : ℤ} → IsSortedFrom low []
    next :
        {low : ℤ} {slot : LlSlot A} {rest : List (LlSlot A)}
        → low ≤ℤ slot.seq_num
        → IsSortedFrom slot.seq_num rest
        → IsSortedFrom low (slot ∷ rest)

  pub data IsSorted : List (LlSlot A) → Type ℓ where
    empty : IsSorted []
    first :
        {slot : LlSlot A} {rest : List (LlSlot A)}
        → IsSortedFrom slot.seq_num rest
        → IsSorted (slot ∷ rest)

  insert-IsSortedFrom :
      (low : ℤ) (new : LlSlot A) (slots : List (LlSlot A))
      → low ≤ℤ new.seq_num
      → IsSortedFrom low slots
      → IsSortedFrom low (insert new slots)
  insert-IsSortedFrom low new [] le done = next le done
  insert-IsSortedFrom low new (slot ∷ rest) le (next at sorted) =
      elim (Bool-cases (ltb_ℤ new.seq_num slot.seq_num)) [
        | inl less ↦ rw less (next le (next (ground arith) sorted))
        | inr more ↦
            rw more (next at (insert-IsSortedFrom slot.seq_num new rest (ground arith) sorted))
      ]

  insert-IsSorted :
      (new : LlSlot A) (slots : List (LlSlot A)) → IsSorted slots → IsSorted (insert new slots)
  insert-IsSorted new [] empty = first done
  insert-IsSorted new (slot ∷ rest) (first sorted) =
      elim (Bool-cases (ltb_ℤ new.seq_num slot.seq_num)) [
        | inl less ↦ rw less (first (next (ground arith) sorted))
        | inr more ↦
            rw more (first (insert-IsSortedFrom slot.seq_num new rest (ground arith) sorted))
      ]

  insert_less :
      (a b : LlSlot A) (slots : List (LlSlot A))
      → ltb_ℤ a.seq_num b.seq_num ≡ true
      → ltb_ℤ b.seq_num a.seq_num ≡ false
      → insert a (insert b slots) ≡ insert b (insert a slots)
  insert_less a b [] less more = rw (less, more) refl
  insert_less a b (s ∷ rest) less more = elim (Bool-cases (ltb_ℤ a.seq_num s.seq_num)) [
    | inl ahead ↦ elim (Bool-cases (ltb_ℤ b.seq_num s.seq_num)) [
      | inl both ↦ rw (ahead, both, less, more) refl
      | inr one ↦ rw (ahead, one, more) (rw ahead refl)
    ]
    | inr behind ↦
        let far : ltb_ℤ b.seq_num s.seq_num ≡ false = ground arith in
        rw (behind, far) (rw behind (ap (λ t. s ∷ t) (insert_less a b rest less more)))
  ]

  -- Slots with different numbers may come in either order.
  insert-insert :
      (a b : LlSlot A) (slots : List (LlSlot A))
      → a.seq_num ≢ b.seq_num
      → insert a (insert b slots) ≡ insert b (insert a slots)
  insert-insert a b slots ne = elim (Bool-cases (ltb_ℤ a.seq_num b.seq_num)) [
    | inl less ↦ insert_less a b slots less (ground arith)
    | inr more ↦
        let less : ltb_ℤ b.seq_num a.seq_num ≡ true =
          ground (arith, eq_of_parts a.seq_num b.seq_num) in
        sym (insert_less b a slots less more)
  ]

  -- The list after a push that finds memory.
  abbrev pub linked : Ll A → LlSlot A → Ll A
  linked ll slot = record ll { slot_count = ll.slot_count +ℤ pos 1; slots = insert slot ll.slots }

module _ {ℓ} {A : Type ℓ} ⦃buffer : Buffer A⦄ where
  -- What a push that finds memory leaves in its slot.
  abbrev pub stored : A → Ll A → A → ℕ → ℤ → LlSlot A
  stored zeroed ll src len seq_num = record {
    len = min len ll.slot_data_size;
    buff = buffer.copy zeroed src (min len ll.slot_data_size);
    seq_num = seq_num;
  }

  pub push_seq_ord_run :
      (zeroed : A) (ll : Ll A) (src : A) (len : ℕ) (seq_num : ℤ)
      → len ≢ 0
      → push_seq_ord true zeroed ll src len seq_num ≡ (
        if ltb (min len ll.slot_data_size) len then etrunc else enoerr,
        min len ll.slot_data_size,
        linked ll (stored zeroed ll src len seq_num),
      )
  unfolding push_seq_ord new_slot
  push_seq_ord_run zeroed ll src len seq_num ne =
      let busy : (len == 0) ≡ false = ground arith in
      let same = link-insert (stored zeroed ll src len seq_num) ll.slots in rw (busy, same) refl

  -- Two packets of at least one byte with different numbers, both of which find memory, leave the
  -- same list in whichever order they are pushed.
  pub push-push :
      (zeroed : A) (ll : Ll A) (x y : A) (m n : ℕ) (i j : ℤ)
      → m ≢ 0
      → n ≢ 0
      → i ≢ j
      → let (_, _, x_first) = push_seq_ord true zeroed ll x m i in
        let (_, _, y_first) = push_seq_ord true zeroed ll y n j in
        (push_seq_ord true zeroed x_first y n j).2 ≡ (push_seq_ord true zeroed y_first x m i).2
  push-push zeroed ll x y m n i j some_x some_y ne =
      let first = push_seq_ord_run zeroed ll x m i some_x in
      let second = push_seq_ord_run zeroed ll y n j some_y in
      rw (first, second)
        (let after_x = push_seq_ord_run zeroed (linked ll (stored zeroed ll x m i)) y n j some_y in
          let after_y = push_seq_ord_run zeroed (linked ll (stored zeroed ll y n j)) x m i some_x in
          rw (after_x, after_y)
            (ap (λ slots. record ll { slot_count = ll.slot_count +ℤ pos 1 +ℤ pos 1; slots = slots })
              (insert-insert (stored zeroed ll y n j) (stored zeroed ll x m i) ll.slots
                (λ e. ne (sym e)))))

  -- A push keeps the slots in the order of their numbers, whatever it answers.
  pub push_seq_ord-IsSorted :
      (got_slot : Bool) (zeroed : A) (ll : Ll A) (src : A) (len : ℕ) (seq_num : ℤ)
      → IsSorted ll.slots
      → IsSorted (push_seq_ord got_slot zeroed ll src len seq_num).2.slots
  unfolding push_seq_ord new_slot
  push_seq_ord-IsSorted got_slot zeroed ll src len seq_num sorted = elim (Bool-cases (len == 0)) [
    | inl none ↦ rw none sorted
    | inr some ↦
        elim got_slot as (λ got. IsSorted (push_seq_ord got zeroed ll src len seq_num).2.slots) [
          | false ↦ rw some sorted
          | true ↦
              rw (push_seq_ord_run zeroed ll src len seq_num (ground arith))
                (insert-IsSorted (stored zeroed ll src len seq_num) ll.slots sorted)
        ]
  ]
