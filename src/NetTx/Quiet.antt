-- ===== src/NetTx/Quiet.antt =====
-- What a call of `doEtcpNetTx` in src/etcp.c that succeeds leaves to be sent: nothing.
use native.Mathlib.Decide.{ℕ_discrete}
use etcp.Base.{
  ℕ, zero, suc, ◌+◌, ◌%◌, ◌≤◌, ◌<◌, ◌≡◌, ◌≢◌, inl, inr, refl, sym, ap, subst, ◌∙◌, true, Option,
  none, some, pos, arith, Bool-cases, ltb_ℤ, ltb, ◌&&◌, ℤ, ◌≤ℤ◌, ◌+ℤ◌, ◌^◌, pos_part, int_64,
  int_64-sum,
}
use etcp.CircularQueue.{Cq}
use etcp.CircularQueue.Window.{IsValid, occupied, slot_of, slot_count_pos}
use etcp.Packet.{EtcpError, enoerr, PBuff, now}
use etcp.NetTx.{turn, send_loop, do_etcp_net_tx}
use etcp.NetTx.Turn.{Keeps, turn-Keeps}
use etcp.NetTx.Ends.{do_etcp_net_tx-ends}
use etcp.NetTx.Handled.{Handles, turn-Turned}

-- No packet of the window below `limit` is to be sent.
abbrev pub IsQuiet : Cq PBuff → ℕ → Type 0
IsQuiet cq limit =
    (n : ℕ)
    → cq.rd_seq ≤ n
    → n < limit
    → n < cq.wr_seq
    → occupied cq n ≡ true
    → (slot_of cq n).buff.tx_state ≢ now

Handles-IsQuiet :
    (cq after : Cq PBuff) (i : ℕ)
    → Keeps cq after
    → Handles cq i after
    → IsQuiet cq i
    → IsQuiet after (i + 1)
Handles-IsQuiet cq after i k h quiet n lo hi less full =
    let count : n % after.slot_count ≡ n % cq.slot_count = ap (λ c. n % c) h.count in
    elim (ℕ_discrete (n % cq.slot_count) (i % cq.slot_count)) [
      | yes same ↦
          let there : n % after.slot_count ≡ i % cq.slot_count = count ∙ same in
          subst (λ s. (after.slots s).valid ≡ true → (after.slots s).buff.tx_state ≢ now)
            (sym there) h.here full
      | no apart ↦
          let kept : slot_of after n ≡ slot_of cq n =
            ap (λ s. after.slots s) count ∙ h.others (n % cq.slot_count) apart in
          let before : n < i = ground (arith, apart) in
          let was =
            quiet n (omega (arith, k.rd_seq)) before (omega (arith, k.wr_seq))
              (ap (λ s. s.valid) (sym kept) ∙ full) in
          subst (λ s. s.buff.tx_state ≢ now) (sym kept) was
    ]

module _ {W : Type 0} (clock : W → ℕ × W) (eth_hw_tx : W → PBuff → ℤ × ℕ × W) where
  -- A loop that succeeds leaves the whole window quiet.
  abbrev Succeeds : Option (EtcpError × Cq PBuff × W) → Type 0
  Succeeds none = Unit
  Succeeds (some (e, after, w)) = e ≡ enoerr → IsQuiet after after.wr_seq

  stop-Succeeds :
      (stop : Option EtcpError) (after : Cq PBuff) (w : W)
      (rest : Option (EtcpError × Cq PBuff × W))
      → stop ≢ some enoerr
      → (stop ≡ none → Succeeds rest)
      → Succeeds (elim stop [ none ↦ rest | some e ↦ some (e, after, w) ])
  stop-Succeeds none after w rest sound later = later refl
  stop-Succeeds (some e) after w rest sound later = λ fine. absurd (sound (ap some fine))

  send_loop-Succeeds :
      (fuel : ℕ) (cq : Cq PBuff) (i : ℕ) (max_slots : ℤ) (w : W)
      → IsValid cq
      → pos cq.slot_count ≤ℤ max_slots
      → cq.wr_seq + pos_part max_slots < 2 ^ 63
      → IsQuiet cq i
      → Succeeds (send_loop clock eth_hw_tx fuel cq i max_slots w)
  unfolding send_loop
  send_loop-Succeeds zero cq i max_slots w v enough small quiet = tt
  send_loop-Succeeds (suc fuel) cq i max_slots w v enough small quiet =
      let goes = ltb i cq.rd_max && ltb_ℤ (pos i) (int_64 (pos cq.rd_min +ℤ max_slots)) in
      let some_slots : pos 1 ≤ℤ max_slots = omega (arith, slot_count_pos v.shape) in
      let sum =
        int_64-sum cq.rd_min max_slots some_slots
          (omega (arith, v.shape.rd_min, v.shape.ordered)) in
      let (stop, after, w_after) = turn clock eth_hw_tx cq i w in
      let (sound, dealt) = turn-Turned clock eth_hw_tx cq i w v in
      let kept = turn-Keeps clock eth_hw_tx cq i w v in
      elim (Bool-cases goes) [
        | inr stops ↦ rw stops (λ _ n lo hi less full.
            let past : n < i =
              ground (arith, v.shape.rd_max, v.shape.rd_min, v.shape.bounded, enough, sum) in
            quiet n lo past less full)
        | inl on ↦ rw on (
            stop-Succeeds stop after w_after _ sound (λ fine.
              let (lo, hi, h) = dealt fine in
              send_loop-Succeeds fuel after (i + 1) max_slots w_after kept.valid
                (omega (arith, h.count)) (omega (arith, kept.wr_seq))
                (Handles-IsQuiet cq after i kept h quiet)))
      ]

  -- On a well-formed queue, with a limit of at least the number of slots that stays below 2 ^ 63
  -- with the write number added, and with fuel for two turns more than there are numbers from the read number to the write number, `doEtcpNetTx` ends;
  -- where it answers etcpENOERR, no packet of the window is left that was to be sent.
  pub do_etcp_net_tx-IsQuiet :
      (fuel : ℕ) (cq : Cq PBuff) (max_slots : ℤ) (w : W)
      → IsValid cq
      → pos cq.slot_count ≤ℤ max_slots
      → cq.wr_seq + pos_part max_slots < 2 ^ 63
      → cq.wr_seq + 2 ≤ fuel + cq.rd_seq
      → (r : EtcpError × Cq PBuff × W) × (do_etcp_net_tx clock eth_hw_tx fuel cq max_slots w
          ≡ some r)
        × (r.0 ≡ enoerr → IsQuiet r.1 r.1.wr_seq)
  unfolding do_etcp_net_tx
  do_etcp_net_tx-IsQuiet fuel cq max_slots w v enough small fuelled =
      let (r, run, _, _, _) = do_etcp_net_tx-ends clock eth_hw_tx fuel cq max_slots w v fuelled in
      let quiet : IsQuiet cq cq.rd_min =
        λ n lo hi less full. absurd (omega (arith, v.shape.rd_min)) in
      (
        r,
        run,
        subst Succeeds run (send_loop-Succeeds fuel cq cq.rd_min max_slots w v enough small quiet),
      )
