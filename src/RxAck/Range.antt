-- ===== src/RxAck/Range.antt =====
-- When the loop of `etcpOnRxAck` over a range of numbers ends: src/etcp.c.
use etcp.Base.{
  ℕ, zero, suc, ◌+◌, ◌%◌, ◌^◌, ◌≤◌, ◌<◌, ◌≡◌, refl, true, none, some, ltb, arith, lt→ltb, ltb_of_le,
}
use etcp.CircularQueue.{Cq}
use etcp.Packet.{PBuff}
use etcp.Ack.{process_ack}
use etcp.RxAck.{ack_range}

-- The specification: `count` numbers from `first + i` on, acknowledged one after the other.
abbrev pub acks : ℕ → Cq PBuff → ℕ → ℕ → Cq PBuff
acks zero cq first i = cq
acks (suc count) cq first i = acks count (process_ack cq ((first + i) % 2 ^ 64)).1 first (i + 1)

range_from :
    (left fuel : ℕ) (cq : Cq PBuff) (first i count : ℕ)
    → i + left ≡ count
    → count < 2 ^ 16
    → left < fuel
    → ack_range fuel cq first i count ≡ some (acks left cq first i)
unfolding ack_range
range_from left zero cq first i count at small enough = absurd (omega arith)
range_from zero (suc fuel) cq first i count at small enough =
    rw (ltb_of_le i count (omega arith), ack_range) refl
range_from (suc left) (suc fuel) cq first i count at small enough =
    let less : ltb i count ≡ true = lt→ltb i count (omega arith) in
    let exact : (i + 1) % 2 ^ 16 ≡ i + 1 = omega arith in
    let after = (process_ack cq ((first + i) % 2 ^ 64)).1 in
    rw (less, ack_range)
      (rw exact (range_from left fuel after first (i + 1) count (omega arith) small (omega arith)))

never :
    (fuel : ℕ) (cq : Cq PBuff) (first i count : ℕ)
    → i < 2 ^ 16
    → 2 ^ 16 ≤ count
    → ack_range fuel cq first i count ≡ none
unfolding ack_range
never zero cq first i count inside large = refl
never (suc fuel) cq first i count inside large =
    let less : ltb i count ≡ true = lt→ltb i count (omega arith) in
    rw (less, ack_range) (never fuel _ first ((i + 1) % 2 ^ 16) count (omega arith) large)

-- A range of fewer than 2 ^ 16 numbers is acknowledged number by number, with fuel for one turn
-- more than it has numbers.
pub ack_range-acks :
    (fuel : ℕ) (cq : Cq PBuff) (first count : ℕ)
    → count < 2 ^ 16
    → count < fuel
    → ack_range fuel cq first 0 count ≡ some (acks count cq first 0)
ack_range-acks fuel cq first count small enough =
    range_from count fuel cq first 0 count (omega arith) small enough

-- The loop over a range of 2 ^ 16 numbers or more does not end, whatever the fuel.
pub ack_range-none :
    (fuel : ℕ) (cq : Cq PBuff) (first count : ℕ)
    → 2 ^ 16 ≤ count
    → ack_range fuel cq first 0 count ≡ none
ack_range-none fuel cq first count large = never fuel cq first 0 count (omega arith) large
