-- ===== src/SelfTest/Queue.antt =====
-- src/CircularQueueTest.c.
use etcp.Base.{
  ℕ, zero, suc, ◌+◌, ◌≡◌, refl, Bool, true, false, not, Option, none, some, ◌>>=◌, pos, ◌==◌, ok,
  err, Bytes, bytes_buffer,
}
use etcp.CircularQueue.{
  CqError, enoerr, enoslot, ewrongslot, Cq, get, adv_wr_seq, adv_rd_seq, scan_wr, scan_rd,
}
use etcp.CircularQueue
use etcp.CircularQueue.Slots.{
  get_next_wr, commit_slot, release_slot, push, pull, push_next, pull_next,
}
use etcp.UserTx.{is_enoerr}
use etcp.SelfTest.{asserting, passes, same_bytes, data_bytes, no_data}

-- `err == cqENOSLOT` and `err == cqEWRONGSLOT`.
abbrev is_enoslot : CqError → Bool
is_enoslot enoslot = true
is_enoslot _ = false

abbrev is_ewrongslot : CqError → Bool
is_ewrongslot ewrongslot = true
is_ewrongslot _ = false

-- `cqNew` for slots of some bytes and four slots.
abbrev four_slots : ℕ → Option (Cq Bytes)
four_slots size = CircularQueue.new (pos size) (pos 2) true true no_data

-- That no slot is left to write.
unfoldable pub no_slot_left : Cq Bytes → Option (Cq Bytes)
no_slot_left cq = elim (get_next_wr cq) [ ok _ ↦ none | err e ↦ asserting (is_enoslot e) (some cq) ]

-- `test2`: the first slot to write.
unfoldable pub test2 : Option (Cq Bytes)
test2 = four_slots 17 >>= (λ cq. elim (get_next_wr cq) [
  | err _ ↦ none
  | ok at ↦ asserting (at.1 == 0) (asserting (cq.wr_seq == 0) (some cq))
])

-- The inner loops of `test3`: slots filled from a write number on, and released from a read number
-- on.
unfoldable pub fill : ℕ → Cq Bytes → ℕ → Option (Cq Bytes)
fill zero cq wr_seq_num = some cq
fill (suc left) cq wr_seq_num = elim (get_next_wr cq) [
  | err _ ↦ none
  | ok at ↦
      let after = (commit_slot cq (pos at.1) (cq.slots at.0).len).1 in
      asserting (cq.wr_seq == wr_seq_num) (
        asserting (not (cq.slots at.0).valid) (
          asserting (after.wr_seq == wr_seq_num + 1)
            (asserting (after.slots at.0).valid (fill left after (wr_seq_num + 1)))))
]

unfoldable pub drain : ℕ → Cq Bytes → ℕ → Option (Cq Bytes)
drain zero cq rd_seq_num = some cq
drain (suc left) cq rd_seq_num =
    let (code, after) = release_slot cq (pos rd_seq_num) in
    asserting (is_enoerr code)
      (asserting (after.rd_seq == rd_seq_num + 1) (drain left after (rd_seq_num + 1)))

-- Its outer loop, and `test3`.
unfoldable pub rounds : ℕ → Cq Bytes → ℕ → Option (Cq Bytes)
rounds zero cq seq_num = some cq
rounds (suc left) cq seq_num = do
  filled ← fill 4 cq seq_num
  full ← no_slot_left filled
  drained ← asserting (full.wr_seq == seq_num + 4) (drain 4 full seq_num)
  rounds left drained (seq_num + 4)

unfoldable pub test3 : Option (Cq Bytes)
test3 = four_slots 17 >>= (λ cq. rounds 4 cq 0)

-- The first loop of `test4` and `test5`: the data pushed and committed, with `len` as it stands.
unfoldable pub push_all : ℕ → Cq Bytes → ℕ → ℕ → Option (Cq Bytes × ℕ)
push_all zero cq i len = some (cq, len)
push_all (suc left) cq i len =
    let ((pushed, copied, written), idx) = push_next cq data_bytes len in
    let (committed, after) = commit_slot written (pos idx) copied in
    asserting (is_enoerr pushed) (
      asserting (after.wr_seq == i + 1)
        (asserting (is_enoerr committed) (push_all left after (i + 1) copied)))

-- The loop of `test4` that releases, and the test, where a release too many is refused.
unfoldable pub release_all : ℕ → Cq Bytes → ℕ → Option (Cq Bytes)
release_all zero cq i = some cq
release_all (suc left) cq i =
    let (code, after) = release_slot cq (pos i) in
    asserting (is_enoerr code) (release_all left after (i + 1))

unfoldable pub test4 : Option (Cq Bytes)
test4 = do
  cq ← four_slots 7
  pushed ← push_all 4 cq 0 7
  full ← no_slot_left pushed.0
  drained ← release_all 4 full 0
  asserting (is_ewrongslot (release_slot drained (pos 4)).0) (some drained)

-- The loop of `test5` that pulls, and the test, where a pull too many is refused.
unfoldable pub pull_all : ℕ → Cq Bytes → ℕ → Bytes → ℕ → Option (Cq Bytes × Bytes × ℕ)
pull_all zero cq i read_buff len = some (cq, read_buff, len)
pull_all (suc left) cq i read_buff len =
    let ((pulled, bytes, copied), seq) = pull_next cq read_buff len in
    let after = (release_slot cq (pos seq)).1 in
    asserting (is_enoerr pulled) (
      asserting (same_bytes copied bytes data_bytes)
        (asserting (after.rd_seq == i + 1) (pull_all left after (i + 1) bytes copied)))

unfoldable pub test5 : Option (Cq Bytes)
test5 = do
  cq ← four_slots 7
  pushed ← push_all 4 cq 0 7
  full ← no_slot_left pushed.0
  pulled ← pull_all 4 full 0 no_data pushed.1
  let last = pull_next pulled.0 pulled.1 pulled.2
  asserting (is_enoslot last.0.0) (some pulled.0)

-- All of them pass.
tests_pass :
    (passes test2 ≡ true) × (passes test3 ≡ true) × (passes test4 ≡ true) × (passes test5 ≡ true)
unfolding test2 test3 test4 test5 CircularQueue.new no_slot_left fill drain rounds push_all
    release_all pull_all get_next_wr commit_slot release_slot push pull push_next pull_next get
    adv_wr_seq adv_rd_seq scan_wr scan_rd
tests_pass = (refl, refl, refl, refl)
