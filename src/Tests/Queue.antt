-- ===== src/Tests/Queue.antt =====
-- A queue of four slots of numbers, and one of bytes, as `cqNew` of src/CircularQueue.c makes them.
use etcp.Base.{
  ℕ, ◌≡◌, refl, true, false, some, none, pos, arith, List, [], ◌∷◌, ◌<◌, ◌+◌, Bytes, memcpy,
  bytes_buffer, ◌+ℤ◌, ◌-ℤ◌,
}
use etcp.CircularQueue.{
  enochange, Cq, enoerr, enoslot, new, get, scan_wr, adv_wr_seq, scan_rd, adv_rd_seq, sizeof_slot,
}
use etcp.CircularQueue.Slots.{commit_slot, release_slot, push, pull, write_buff}
use etcp.CircularQueue.Window.{IsValid, occupied}
use etcp.CircularQueue.Invariant.{commit_slot-IsValid, release_slot-IsValid, write_buff-IsValid}
use etcp.CircularQueue.Outcomes.{Commits, Releases, commit_slot-Commits, release_slot-Releases}
use etcp.CircularQueue.Copy.{push-commit-pull}
use etcp.CircularQueue.Limits.{release-push-overruns}
use etcp.CircularQueue.Fifo.{IsFifo, contents}
use etcp.CircularQueue.Fifo.Refine.{
  Call, offer, accept, Reply, run, run_refines, bounded_run, new-IsFifo,
}

abbrev four_slots {ℓ} : {A : Type ℓ} → A → Cq A
four_slots zeroed = record {
  slot_data_size = 32;
  rd_min = 0;
  rd_max = 0;
  rd_rng = pos 0;
  readable = pos 0;
  wr_min = 0;
  wr_max = 4;
  wr_rng = pos 0;
  available = pos 4;
  outstanding = pos 0;
  rd_seq = 0;
  wr_seq = 0;
  slot_count_log2 = 2;
  slot_count = 4;
  seq_mask = 3;
  slot_size = 56;
  slots = λ i. record { len = 32; buff = zeroed; valid = false };
}

abbrev zero_number : ℕ
zero_number = 0

abbrev number_slots : Cq ℕ
number_slots = four_slots 0

new-four_slots : new (pos 32) (pos 2) true true zero_number ≡ some number_slots
unfolding new
new-four_slots = refl

new-IsFifo_example : IsFifo number_slots × (contents number_slots ≡ [])
new-IsFifo_example = new-IsFifo 32 2 zero_number new-four_slots

empty-IsFifo : IsFifo number_slots
empty-IsFifo = (new-IsFifo 32 2 zero_number new-four_slots).0

abbrev calls : List (Call ℕ)
calls = offer 7 20 ∷ offer 8 32 ∷ accept ∷ accept ∷ accept ∷ []

abbrev replies : List (Reply ℕ)
replies =
    (enoerr, none) ∷ (enoerr, none) ∷ (enoerr, some 7) ∷ (enoerr, some 8) ∷ (enoslot, none) ∷ []

bounded_run-calls : bounded_run 4 [] calls ≡ replies
unfolding bounded_run
bounded_run-calls = refl

run_refines_example : run number_slots calls ≡ bounded_run 4 [] calls
run_refines_example = run_refines calls number_slots empty-IsFifo (omega arith, (omega arith, tt))

-- One committed packet, and two.
abbrev one_packet : Cq ℕ
one_packet = (commit_slot (write_buff number_slots 0 7) (pos 0) 20).1

abbrev two_packets : Cq ℕ
two_packets = (commit_slot (write_buff one_packet 1 8) (pos 1) 20).1

one_packet-IsValid : IsValid one_packet
one_packet-IsValid =
    commit_slot-IsValid (write_buff number_slots 0 7) (pos 0) 20
      (write_buff-IsValid number_slots 0 7 empty-IsFifo.valid)

two_packets_numbers :
    (two_packets.rd_seq ≡ 0) × (two_packets.wr_seq ≡ 2) × (two_packets.readable ≡ pos 2)
unfolding commit_slot get adv_wr_seq scan_wr ◌+ℤ◌ ◌-ℤ◌
two_packets_numbers = (refl, refl, refl)

commit_slot-IsValid_example : IsValid two_packets
commit_slot-IsValid_example =
    commit_slot-IsValid (write_buff one_packet 1 8) (pos 1) 20
      (write_buff-IsValid one_packet 1 8 one_packet-IsValid)

release_slot-IsValid_example : IsValid (release_slot one_packet (pos 0)).1
release_slot-IsValid_example = release_slot-IsValid one_packet (pos 0) one_packet-IsValid

commit_slot-Commits_example : Commits one_packet (pos 3) 20 (commit_slot one_packet (pos 3) 20)
commit_slot-Commits_example = commit_slot-Commits one_packet (pos 3) 20 one_packet-IsValid

release_slot-Releases_example : Releases one_packet (pos 0) (release_slot one_packet (pos 0))
release_slot-Releases_example = release_slot-Releases one_packet (pos 0) one_packet-IsValid

-- Slot 1 is committed before slot 0.
abbrev late_packet : Cq ℕ
late_packet = (commit_slot number_slots (pos 1) 20).1

late_packet-IsValid : IsValid late_packet
late_packet-IsValid = commit_slot-IsValid number_slots (pos 1) 20 empty-IsFifo.valid

late_packet_numbers :
    (late_packet.rd_seq ≡ 0)
    × (late_packet.wr_seq ≡ 0)
    × (late_packet.slot_count ≡ 4)
    × (occupied late_packet 1 ≡ true)
    × ((late_packet.slots 0).len ≡ 32)
    × (late_packet.readable ≡ pos 0)
unfolding commit_slot get adv_wr_seq scan_wr ◌+ℤ◌ ◌-ℤ◌
late_packet_numbers = (refl, refl, refl, refl, refl, refl)

-- The queue of bytes.
abbrev zero_bytes : Bytes
zero_bytes i = 0

abbrev count_bytes : Bytes
count_bytes i = i

new-byte_slots : new (pos 32) (pos 2) true true zero_bytes ≡ some (four_slots zero_bytes)
unfolding new
new-byte_slots = refl

byte_slots-IsFifo : IsFifo (four_slots zero_bytes)
byte_slots-IsFifo = (new-IsFifo 32 2 zero_bytes new-byte_slots).0

push-commit-pull_example :
    let (e, n, pushed) = push (four_slots zero_bytes) count_bytes 20 (pos 2) in
    let committed = commit_slot pushed (pos 2) n in
    (e ≡ enoerr)
    × (n ≡ 20)
    × (committed.0 ≡ enochange)
    × (pull committed.1 zero_bytes n (pos 2) ≡ (enoerr, memcpy zero_bytes count_bytes 20, 20))
push-commit-pull_example =
    push-commit-pull (four_slots zero_bytes) count_bytes zero_bytes 20 2 byte_slots-IsFifo.valid
      (omega arith) (omega arith) refl (omega arith) (omega arith)

-- One committed packet of bytes, released, and slot 0 filled again as number 4.
abbrev byte_packet : Cq Bytes
byte_packet = (commit_slot (four_slots zero_bytes) (pos 0) 20).1

byte_packet-IsValid : IsValid byte_packet
byte_packet-IsValid = commit_slot-IsValid (four_slots zero_bytes) (pos 0) 20 byte_slots-IsFifo.valid

release-push-overruns_example :
    let (e, copied, _) =
      push (release_slot byte_packet (pos 0)).1 count_bytes byte_packet.slot_size (pos 4) in
    (e ≡ enoerr) × (byte_packet.slot_size < sizeof_slot + copied)
unfolding commit_slot release_slot get adv_wr_seq scan_wr adv_rd_seq scan_rd ◌+ℤ◌ ◌-ℤ◌
release-push-overruns_example =
    release-push-overruns byte_packet count_bytes 0 4 byte_packet-IsValid (omega arith)
      (omega arith) refl (omega arith) (omega arith) refl
