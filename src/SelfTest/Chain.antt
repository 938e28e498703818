-- ===== src/SelfTest/Chain.antt =====
-- src/LinkedListTest.c. Two of its assertions assign the expected number to the slot, so that they
-- compare nothing: here they write it too.
use etcp.Base.{
  ℕ, zero, suc, ◌+◌, ◌≡◌, refl, Bool, true, false, not, ◌&&◌, Option, none, some, ◌>>=◌, pos, leb_ℤ,
  ◌==◌, Bytes, bytes_buffer, List, [], ◌∷◌, ◌+ℤ◌, ◌-ℤ◌,
}
use etcp.LinkedList.{
  LlError, Ll, LlSlot, get_first, push_seq_ord, new_slot, link, push_loop, release_head,
}
use etcp.LinkedList
use etcp.SelfTest.{asserting, passes, data_bytes, no_data}

-- `err == llENOERR`, and a comparison of `slotCount`.
abbrev is_ll_enoerr : LlError → Bool
is_ll_enoerr LlError.enoerr = true
is_ll_enoerr _ = false

abbrev counts : Ll Bytes → ℕ → Bool
counts ll n = leb_ℤ ll.slot_count (pos n) && leb_ℤ (pos n) ll.slot_count

-- A push of the data with a number: the code, the length and the list.
abbrev pushed : Ll Bytes → ℕ → ℕ → LlError × ℕ × Ll Bytes
pushed ll len seq_num = push_seq_ord true no_data ll data_bytes len (pos seq_num)

-- `test2`.
unfoldable pub test2 : Option (Ll Bytes)
test2 = LinkedList.new 7 true >>= (λ ll.
    let (code, len, after) = pushed ll 7 5432 in
    let there : Bool = elim after.slots [ [] ↦ false | slot ∷ rest ↦ true ] in
    let released = release_head after in
    asserting (len == 7) (
      asserting (is_ll_enoerr code) (
        asserting there
          (asserting (counts after 1) (asserting (counts released 0) (some released))))))

-- The loops of `test3`, and the test. The loop that releases is that of `test4` too.
unfoldable pub push_all : ℕ → Ll Bytes → ℕ → ℕ → Option (Ll Bytes)
push_all zero ll i len = some ll
push_all (suc left) ll i len =
    let (code, copied, after) = pushed ll len 5432 in
    asserting (is_ll_enoerr code)
      (asserting (counts after (i + 1)) (push_all left after (i + 1) copied))

unfoldable pub release_all : ℕ → Ll Bytes → Option (Ll Bytes)
release_all zero ll = some ll
release_all (suc left) ll = asserting (counts ll (suc left)) (release_all left (release_head ll))

unfoldable pub test3 : Option (Ll Bytes)
test3 = LinkedList.new 7 true >>= (λ ll. push_all 10 ll 0 7 >>= (λ full. release_all 10 full))

-- A walk along the list that gives its slots the expected numbers, none of them 0.
unfoldable pub walk : List (LlSlot Bytes) → List ℕ → Option (List (LlSlot Bytes))
walk slots [] = some slots
walk [] (key ∷ keys) = none
walk (slot ∷ rest) (key ∷ keys) =
    asserting (not (key == 0))
      (walk rest keys >>= (λ after. some (record slot { seq_num = pos key } ∷ after)))

-- The loop of `test4` over the keys and the rows of numbers in their order.
unfoldable pub push_rows : List (ℕ × List ℕ) → Ll Bytes → ℕ → ℕ → Option (Ll Bytes)
push_rows [] ll i len = some ll
push_rows (row ∷ rows) ll i len =
    let (code, copied, after) = pushed ll len row.0 in
    let walked : Option (Ll Bytes) =
      walk after.slots row.1 >>= (λ slots. some (record after { slots = slots })) in
    asserting (is_ll_enoerr code)
      (asserting (counts after (i + 1)) (walked >>= (λ next. push_rows rows next (i + 1) copied)))

abbrev pub rows : List (ℕ × List ℕ)
rows =
    (7, 7 ∷ [])
    ∷ (3, 3 ∷ 7 ∷ [])
    ∷ (5, 3 ∷ 5 ∷ 7 ∷ [])
    ∷ (9, 3 ∷ 5 ∷ 7 ∷ 9 ∷ [])
    ∷ (1, 1 ∷ 3 ∷ 5 ∷ 7 ∷ 9 ∷ [])
    ∷ (2, 1 ∷ 2 ∷ 3 ∷ 5 ∷ 7 ∷ 9 ∷ [])
    ∷ []

unfoldable pub test4 : Option (Ll Bytes)
test4 = LinkedList.new 7 true >>= (λ ll. push_rows rows ll 0 7 >>= (λ full. release_all 6 full))

-- All of them pass.
tests_pass : (passes test2 ≡ true) × (passes test3 ≡ true) × (passes test4 ≡ true)
unfolding test2 test3 test4 LinkedList.new push_all release_all push_rows walk push_seq_ord new_slot
    link push_loop release_head ◌+ℤ◌ ◌-ℤ◌
tests_pass = (refl, refl, refl)
