-- ===== src/NetTx/Handled.antt =====
-- What a turn of `doEtcpNetTx` in src/etcp.c does to the packet that it looks at.
use native.Mathlib.Decide.{dec_lt}
use etcp.Base.{
  ℕ, ◌+◌, ◌%◌, ◌≤◌, ◌<◌, ◌≡◌, ◌≢◌, inl, inr, refl, Bool, true, false, Option, none, some, pos,
  arith, Bool-cases, ltb_ℤ, ◌==◌, if◌then◌else◌, ℤ,
}
use etcp.CircularQueue.{Cq, CqError}
use etcp.CircularQueue.Slots.{emptied, get_rd, release_slot, write_buff}
use etcp.CircularQueue.Window.{IsValid, occupied, slot_of, get-inside, get-below, get-above}
use etcp.CircularQueue.Outcomes.{Releases, low, high, vacant, waits, moves, release_slot-Releases}
use etcp.CircularQueue.Invariant.{write_buff-IsValid}
use etcp.Packet.{EtcpError, enoerr, PBuff, TxState, rdy, now, drp, etcp_dat, etcp_ack}
use etcp.NetTx.{turn, act, send_out, settle, stamp, sw_stamped, attempted, hw_stamped}

-- A queue after the packet of number `i` was dealt with: the other slots are as they were, and a
-- packet that is still in its slot is not to be sent.
pub record Handles (cq : Cq PBuff) (i : ℕ) (after : Cq PBuff) : Type 0 where
  pub count : after.slot_count ≡ cq.slot_count
  pub others : (s : ℕ) → s ≢ i % cq.slot_count → after.slots s ≡ cq.slots s
  pub here :
      (after.slots (i % cq.slot_count)).valid ≡ true
      → (after.slots (i % cq.slot_count)).buff.tx_state ≢ now

if-Handles :
    (b : Bool) (cq : Cq PBuff) (i : ℕ) (x y : Cq PBuff)
    → Handles cq i x
    → Handles cq i y
    → Handles cq i (if b then x else y)
if-Handles true cq i x y hx hy = hx
if-Handles false cq i x y hx hy = hy

emptied-Handles :
    (cq q : Cq PBuff) (i k : ℕ)
    → q.slot_count ≡ cq.slot_count
    → ((s : ℕ) → s ≢ i % cq.slot_count → q.slots s ≡ cq.slots s)
    → k ≡ i
    → Handles cq i (emptied q (k % q.slot_count))
emptied-Handles cq q i k count others same =
    let at : k % q.slot_count ≡ i % cq.slot_count = rw (same, count) refl in
    record {
      count = count;
      others = λ s ne.
          let apart : (s == k % q.slot_count) ≡ false = ground (arith, at) in
          rw apart (others s ne);
      here = λ full.
          let found : (i % cq.slot_count == k % q.slot_count) ≡ true = ground (arith, at) in
          absurd (ground (arith, found, full));
    }

-- A release of the number `i` in the window, where its slot is taken.
freed :
    (cq q : Cq PBuff) (i : ℕ) {r : CqError × Cq PBuff}
    → q.slot_count ≡ cq.slot_count
    → ((s : ℕ) → s ≢ i % cq.slot_count → q.slots s ≡ cq.slots s)
    → q.rd_seq ≤ i
    → i < q.rd_seq + q.slot_count
    → occupied q i ≡ true
    → Releases q (pos i) r
    → Handles cq i r.1
freed cq q i count others lo hi full (low h e) = absurd (omega arith)
freed cq q i count others lo hi full (high k at h e) = absurd (ground arith)
freed cq q i count others lo hi full (vacant k at free e) = absurd (ground (arith, at.number))
freed cq q i count others lo hi full (waits k at h ne e) =
    rw e (emptied-Handles cq q i k count others (ground (arith, at.number)))
freed cq q i count others lo hi full (moves m at h gt f e) =
    let h = emptied-Handles cq q i q.rd_seq count others (ground (arith, at.number)) in
    rw e (record { count = h.count; others = h.others; here = h.here })

-- A write to the slot of `i`.
write_buff-Handles :
    (cq : Cq PBuff) (i : ℕ) (p : PBuff)
    → p.tx_state ≢ now
    → Handles cq i (write_buff cq (i % cq.slot_count) p)
write_buff-Handles cq i p quiet = record {
  count = refl;
  others = λ s ne. ground arith;
  here = λ full. ground (arith, quiet);
}

-- A write to the slot of `i`, which is taken, and its release.
write-release-Handles :
    (cq : Cq PBuff) (i : ℕ) (p : PBuff)
    → IsValid cq
    → cq.rd_seq ≤ i
    → i < cq.rd_seq + cq.slot_count
    → occupied cq i ≡ true
    → Handles cq i (release_slot (write_buff cq (i % cq.slot_count) p) (pos i)).1
write-release-Handles cq i p v lo hi full =
    let q = write_buff cq (i % cq.slot_count) p in
    freed cq q i refl (λ s ne. ground arith) lo hi (ground (arith, full))
      (release_slot-Releases q (pos i) (write_buff-IsValid cq (i % cq.slot_count) p v))

stamped_rdy :
    (b : Bool) (p : PBuff) (t : ℕ)
    → p.tx_state ≡ rdy
    → (attempted (if b then hw_stamped p t else p)).tx_state ≡ rdy
stamped_rdy true p t h = h
stamped_rdy false p t h = h

settle-Handles :
    (cq : Cq PBuff) (i : ℕ) (p : PBuff) (t : ℕ)
    → IsValid cq
    → cq.rd_seq ≤ i
    → i < cq.rd_seq + cq.slot_count
    → occupied cq i ≡ true
    → p.tx_state ≡ rdy
    → Handles cq i (settle cq i (i % cq.slot_count) p t)
settle-Handles cq i p t v lo hi full ready =
    let stamped = if p.etcp_dat_hdr.tx_attempts == 0 then hw_stamped p t else p in
    let kept = stamped_rdy (p.etcp_dat_hdr.tx_attempts == 0) p t ready in
    if-Handles (p.etcp_hdr.type == etcp_dat) cq i _ _
      (if-Handles p.etcp_dat_hdr.no_ack cq i _ _
        (write-release-Handles cq i (attempted stamped) v lo hi full)
        (write_buff-Handles cq i (attempted stamped) (ground (arith, kept))))
      (write-release-Handles cq i p v lo hi full)

module _ {W : Type 0} (clock : W → ℕ × W) (eth_hw_tx : W → PBuff → ℤ × ℕ × W) where
  -- An answer without an error has dealt with the packet, and no error is etcpENOERR.
  abbrev Deals : Cq PBuff → ℕ → Option EtcpError × Cq PBuff × W → Type 0
  Deals cq i r = (r.0 ≢ some enoerr) × (r.0 ≡ none → Handles cq i r.1)

  if-Deals :
      (b : Bool) (cq : Cq PBuff) (i : ℕ) (x y : Option EtcpError × Cq PBuff × W)
      → Deals cq i x
      → Deals cq i y
      → Deals cq i (if b then x else y)
  if-Deals true cq i x y dx dy = dx
  if-Deals false cq i x y dx dy = dy

  -- A packet whose time was stamped is still ready.
  abbrev IsReady : Option PBuff → Type 0
  IsReady none = Unit
  IsReady (some q) = q.tx_state ≡ rdy

  if-IsReady :
      (b : Bool) (x y : Option PBuff × W)
      → IsReady x.0
      → IsReady y.0
      → IsReady (if b then x else y).0
  if-IsReady true x y rx ry = rx
  if-IsReady false x y rx ry = ry

  stamp-IsReady : (p : PBuff) (w : W) → p.tx_state ≡ rdy → IsReady (stamp clock eth_hw_tx p w).0
  stamp-IsReady p w ready =
      if-IsReady (p.etcp_hdr.type == etcp_dat) _ _
        (if-IsReady (p.etcp_dat_hdr.tx_attempts == 0) (some (sw_stamped p (clock w).0), (clock w).1)
          (some p, w) ready ready)
        (if-IsReady (p.etcp_hdr.type == etcp_ack) (some (sw_stamped p (clock w).0), (clock w).1)
          (none, w) ready tt)

  module _ (cq : Cq PBuff) (i : ℕ) (v : IsValid cq) (lo : cq.rd_seq ≤ i)
      (hi : i < cq.rd_seq + cq.slot_count) (full : occupied cq i ≡ true) where
    send_out-Deals :
        (p : PBuff) (stamped : Option PBuff) (w : W)
        → IsReady stamped
        → Deals cq i (send_out clock eth_hw_tx cq i (i % cq.slot_count) p stamped w)
    unfolding send_out
    send_out-Deals p none w ready = (ground arith, λ fine. absurd (ground arith))
    send_out-Deals p (some q) w ready =
        let (sent, hw_time, w_sent) = eth_hw_tx w q in
        if-Deals (ltb_ℤ sent (pos 0)) cq i _ _ (ground arith, λ fine. absurd (ground arith))
          (ground arith, λ fine. settle-Handles cq i q hw_time v lo hi full ready)

    act-Deals :
        (state : TxState) (w : W)
        → (slot_of cq i).buff.tx_state ≡ state
        → Deals cq i (act clock eth_hw_tx cq i (i % cq.slot_count) state w)
    unfolding act
    act-Deals drp w at = (
      ground arith,
      λ fine. freed cq cq i refl (λ s ne. refl) lo hi full (release_slot-Releases cq (pos i) v),
    )
    act-Deals rdy w at = (
      ground arith,
      λ fine. record { count = refl; others = λ s ne. refl; here = λ there. ground (arith, at) },
    )
    act-Deals now w at =
        let p = record ((slot_of cq i).buff) { tx_state = rdy } in
        send_out-Deals p (stamp clock eth_hw_tx p w).0 (stamp clock eth_hw_tx p w).1
          (stamp-IsReady p w refl)

  -- A turn that finds no error looks at a number of the window.
  abbrev pub Turned : Cq PBuff → ℕ → Option EtcpError × Cq PBuff × W → Type 0
  Turned cq i r =
      (r.0 ≢ some enoerr)
      × (r.0 ≡ none → (cq.rd_seq ≤ i) × (i < cq.rd_seq + cq.slot_count) × Handles cq i r.1)

  pub turn-Turned :
      (cq : Cq PBuff) (i : ℕ) (w : W) → IsValid cq → Turned cq i (turn clock eth_hw_tx cq i w)
  unfolding turn get_rd
  turn-Turned cq i w v = elim (dec_lt i cq.rd_seq) [
    | yes below ↦
        rw (get-below v.shape (pos i) (omega arith), turn)
          (ground arith, λ fine. absurd (ground arith))
    | no from ↦ elim (dec_lt i (cq.rd_seq + cq.slot_count)) [
      | no beyond ↦
          rw (get-above v.shape i (omega arith), turn) (ground arith, λ fine. absurd (ground arith))
      | yes hi ↦
          let lo : cq.rd_seq ≤ i = omega arith in
          let found = get-inside v.shape i lo hi in
          elim (Bool-cases (occupied cq i)) [
            | inl full ↦
                let (sound, dealt) =
                  act-Deals cq i v lo hi full (slot_of cq i).buff.tx_state w refl in
                rw (found, turn) (rw (full, turn) (sound, λ fine. (lo, hi, dealt fine)))
            | inr free ↦
                let untouched : Handles cq i cq = record {
                  count = refl;
                  others = λ s ne. refl;
                  here = λ there. absurd (ground (arith, there, free));
                } in
                rw (found, turn) (rw (free, turn) (ground arith, λ fine. (lo, hi, untouched)))
          ]
    ]
  ]
