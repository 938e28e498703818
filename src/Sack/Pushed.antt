-- ===== src/Sack/Pushed.antt =====
-- A packet of acknowledgements that `pushSackEthPacket` of src/etcp.c stores in the send queue.
use etcp.Base.{
  ℕ, zero, suc, ◌+◌, ◌-◌, ◌%◌, ◌^◌, ◌≤◌, ◌<◌, ◌≡◌, refl, sym, ap, ◌∙◌, true, false, List, [], ◌∷◌,
  ◌++◌, some, ok, ℤ, pos, ◌+ℤ◌, ltb, ltb_of_le, ==_refl, arith, length,
}
use etcp.CircularQueue.{Slot}
use etcp.CircularQueue.Slots.{room, commit_slot, write_buff}
use etcp.CircularQueue.Window.{IsValid, slot_of}
use etcp.CircularQueue.Next.{get_next_wr-free, write-commit}
use etcp.Packet.{enoerr, PBuff, SackHdr, SackField, etcp_ack, sizeof_pbuff}
use etcp.Conn.{Conn}
use etcp.UserTx.{mk_eth_pkt}
use etcp.Sack.{fields_from, sack_size, sack_packet, eth_overhead, sack_written, push_sack}
use etcp.Sack.Ranges.{run, ranges, append-append, append-nil}

-- The numbers of a list of fields, for the number that the offsets start at.
abbrev pub expand : ℕ → List SackField → List ℕ
expand base [] = []
expand base (f ∷ fields) = run (base + f.offset) f.count ++ expand base fields

-- The number behind the first field.
abbrev pub past_first : ℤ → List SackField → ℤ
past_first start [] = start
past_first start (f ∷ fields) = start +ℤ pos f.offset +ℤ pos f.count

-- A slot that holds the acknowledgement of the numbers `all`, from the number `base` on.
pub record HoldsAcks (base : ℕ) (all : List ℕ) (slot : Slot PBuff) : Type 0 where
  pub valid : slot.valid ≡ true
  pub type : slot.buff.etcp_hdr.type ≡ etcp_ack
  pub base_seq : slot.buff.etcp_sack_hdr.sack_base_seq ≡ pos base
  pub count : slot.buff.etcp_sack_hdr.sack_count ≡ length slot.buff.etcp_sack_hdr.fields % 2 ^ 8
  pub numbers : expand base slot.buff.etcp_sack_hdr.fields ≡ all

pub length-fields_from : (k i : ℕ) (fields : ℕ → SackField) → length (fields_from k i fields) ≡ k
length-fields_from zero i fields = refl
length-fields_from (suc k) i fields = omega (arith, length-fields_from k (i + 1) fields)

ranges-expand :
    (base k i : ℕ) (fields : ℕ → SackField)
    → ranges base i fields ++ expand base (fields_from k i fields) ≡ ranges base (k + i) fields
ranges-expand base zero i fields =
    let same : i ≡ 0 + i = omega arith in
    append-nil (ranges base i fields) ∙ ap (λ n. ranges base n fields) same
ranges-expand base (suc k) i fields =
    let here = run (base + (fields i).offset) (fields i).count in
    let next : suc i ≡ i + 1 = omega arith in
    let last : k + (i + 1) ≡ suc k + i = omega arith in
    sym (append-append (ranges base i fields) here (expand base (fields_from k (i + 1) fields)))
    ∙ ap (λ n. ranges base n fields ++ expand base (fields_from k (i + 1) fields)) next
    ∙ ranges-expand base k (i + 1) fields
    ∙ ap (λ n. ranges base n fields) last

pub expand-fields_from :
    (base k : ℕ) (fields : ℕ → SackField)
    → expand base (fields_from k 0 fields) ≡ ranges base k fields
expand-fields_from base k fields =
    let same : k + 0 ≡ k = omega arith in
    ranges-expand base k 0 fields ∙ ap (λ n. ranges base n fields) same

-- In a queue whose window has room, with a slot that holds the packet, the push stores it there.
pub push_sack-stored :
    (conn : Conn) (hdr : SackHdr) (fields : ℕ → SackField) (count : ℕ)
    → let slot = slot_of conn.tx_q conn.tx_q.wr_seq in
      let eth_len = eth_overhead conn.vlan in
      IsValid conn.tx_q
      → conn.tx_q.wr_seq < conn.tx_q.rd_seq + conn.tx_q.slot_count
      → mk_eth_pkt (slot.len - sizeof_pbuff) conn.vlan ≡ ok eth_len
      → sack_size eth_len count ≤ slot.len
      → sizeof_pbuff + sack_size eth_len count ≤ room conn.tx_q
      → let i = conn.tx_q.wr_seq % conn.tx_q.slot_count in
        let p = sack_packet conn slot.buff (slot.len - sizeof_pbuff) eth_len hdr fields count in
        let size = sack_size eth_len count in
        let after = (commit_slot (write_buff conn.tx_q i p) (pos conn.tx_q.wr_seq) size).1 in
        (push_sack conn hdr fields count ≡ some (enoerr, record conn { tx_q = after }))
        × (after.slots i ≡ record { len = size; buff = p; valid = true })
unfolding push_sack
push_sack-stored conn hdr fields count v space framing fits inside =
    let slot = slot_of conn.tx_q conn.tx_q.wr_seq in
    let eth_len = eth_overhead conn.vlan in
    let buff_size = slot.len - sizeof_pbuff in
    let size = sack_size eth_len count in
    let p = sack_packet conn slot.buff buff_size eth_len hdr fields count in
    let made = write-commit conn.tx_q p size v space fits in
    let bytes : sack_written buff_size conn.vlan count ≡ sizeof_pbuff + size =
      rw (framing, sack_written) refl in
    let stays : ltb (room conn.tx_q) (sack_written buff_size conn.vlan count) ≡ false =
      ltb_of_le (room conn.tx_q) (sack_written buff_size conn.vlan count) (omega (arith, bytes)) in
    (
      rw (get_next_wr-free conn.tx_q v.shape space (v.frontier space), push_sack)
          (rw (stays, push_sack)
            (rw (framing, push_sack)
              (rw (made.code, push_sack) (rw (==_refl size, push_sack) refl)))),
      made.written,
    )
