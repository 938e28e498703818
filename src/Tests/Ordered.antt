-- ===== src/Tests/Ordered.antt =====
-- Lists of src/LinkedList.c.
use etcp.Base.{ℕ, ◌≡◌, refl, true, some, arith, pos, [], ◌∷◌, Bytes, bytes_buffer}
use etcp.LinkedList.{Ll, LlSlot, new, push_seq_ord, delete_loop}
use etcp.LinkedList.Order.{IsSorted, first, done, next, push_seq_ord-IsSorted, push-push}
use etcp.LinkedList.Count.{IsCounted, push_seq_ord-IsCounted, delete_loop-ends}

abbrev zeros : Bytes
zeros i = 0

abbrev numbers : Bytes
numbers i = i

abbrev no_slots : Ll Bytes
no_slots = record { slot_data_size = 32; slot_count = pos 0; slot_size = 64; slots = [] }

new-no_slots : new {A = Bytes} 32 true ≡ some no_slots
unfolding new
new-no_slots = refl

abbrev slot : ℕ → LlSlot Bytes
slot n = record { len = 4; buff = numbers; seq_num = pos n }

abbrev two_slots : Ll Bytes
two_slots = record {
  slot_data_size = 32;
  slot_count = pos 2;
  slot_size = 64;
  slots = slot 3 ∷ slot 7 ∷ [];
}

two_slots-IsSorted : IsSorted two_slots.slots
two_slots-IsSorted = first (next (omega arith) done)

push_seq_ord-IsSorted_example :
    IsSorted (push_seq_ord true zeros two_slots numbers 40 (pos 5)).2.slots
push_seq_ord-IsSorted_example =
    push_seq_ord-IsSorted true zeros two_slots numbers 40 (pos 5) two_slots-IsSorted

push-push_example :
    let (_, _, x_first) = push_seq_ord true zeros two_slots numbers 4 (pos 5) in
    let (_, _, y_first) = push_seq_ord true zeros two_slots zeros 6 (pos 9) in
    (push_seq_ord true zeros x_first zeros 6 (pos 9)).2
    ≡ (push_seq_ord true zeros y_first numbers 4 (pos 5)).2
push-push_example =
    push-push zeros two_slots numbers zeros 4 6 (pos 5) (pos 9) (ground arith) (ground arith)
      (ground arith)

push_seq_ord-IsCounted_example : IsCounted (push_seq_ord true zeros two_slots numbers 4 (pos 5)).2
push_seq_ord-IsCounted_example = push_seq_ord-IsCounted true zeros two_slots numbers 4 (pos 5) refl

delete_loop-ends_example :
    delete_loop 3 two_slots ≡ some (record two_slots { slot_count = pos 0; slots = [] })
delete_loop-ends_example = delete_loop-ends 3 two_slots refl (omega arith)
