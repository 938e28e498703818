-- ===== src/CircularQueue/Fifo/Refine.antt =====
-- A queue of src/CircularQueue.c that is used in order against a bounded list.
use native.Mathlib.Decide.{dec_lt}
use etcp.Base.{
  ℕ, ◌+◌, ◌-◌, ◌%◌, ◌≤◌, ◌≡◌, refl, true, false, lt→ltb, ltb_of_le, pos, arith, Option, none, some,
  List, ◌∷◌, [], ◌++◌, sym, ap, ◌∙◌, length, ltb, if◌then◌else◌,
}
use etcp.CircularQueue.{CqError, enoerr, enoslot, Cq, new}
use etcp.CircularQueue.Invariant.{new-IsValid}
use etcp.CircularQueue.Window.{slot_of}
use etcp.CircularQueue.Fifo.{put, take_next, IsFifo, payloads, contents, length-payloads}
use etcp.CircularQueue.Fifo.Put.{put_run, put_full, pushed, pushed-IsFifo, contents-pushed}
use etcp.CircularQueue.Fifo.Take.{
  popped, take_next_run, take_next-empty, popped-IsFifo, contents-popped,
}

-- A caller's calls, and what it sees of each: the code, and the payload that it took.
pub data Call {ℓ} (A : Type ℓ) : Type ℓ where
  offer : A → ℕ → Call A
  accept : Call A

abbrev pub Reply {ℓ} : Type ℓ → Type ℓ
Reply A = CqError × Option A

module _ {ℓ} {A : Type ℓ} where
  unfoldable pub run : Cq A → List (Call A) → List (Reply A)
  run cq [] = []
  run cq (offer x len ∷ calls) = let (e, after) = put cq x len in (e, none) ∷ run after calls
  run cq (accept ∷ calls) = let (e, x, after) = take_next cq in (e, x) ∷ run after calls

  -- The specification: a list of at most `cap` payloads.
  unfoldable pub bounded_run : ℕ → List A → List (Call A) → List (Reply A)
  bounded_run cap xs [] = []
  bounded_run cap xs (offer x len ∷ calls) =
      let roomy = ltb (length xs) cap in
      (if roomy then enoerr else enoslot, none)
      ∷ bounded_run cap (if roomy then xs ++ x ∷ [] else xs) calls
  bounded_run cap [] (accept ∷ calls) = (enoslot, none) ∷ bounded_run cap [] calls
  bounded_run cap (x ∷ xs) (accept ∷ calls) = (enoerr, some x) ∷ bounded_run cap xs calls

  -- No payload is longer than the queue was made for.
  abbrev pub Fits : ℕ → List (Call A) → Type 0
  Fits size [] = Unit
  Fits size (offer x len ∷ calls) = (len ≤ size) × Fits size calls
  Fits size (accept ∷ calls) = Fits size calls

  contents-drained : (cq : Cq A) → cq.wr_seq ≤ cq.rd_seq → contents cq ≡ []
  contents-drained cq h =
      let left : cq.wr_seq - cq.rd_seq ≡ 0 = omega arith in ap (λ k. payloads cq k cq.rd_seq) left

  run_offer :
      (cq : Cq A) (x : A) (len : ℕ) (calls : List (Call A))
      → IsFifo cq
      → len ≤ cq.slot_data_size
      → ((after : Cq A)
          → IsFifo after
          → after.slot_data_size ≡ cq.slot_data_size
          → after.slot_count ≡ cq.slot_count
          → run after calls ≡ bounded_run cq.slot_count (contents after) calls)
      → run cq (offer x len ∷ calls) ≡ bounded_run cq.slot_count (contents cq) (offer x len ∷ calls)
  unfolding run bounded_run
  run_offer cq x len calls v fits rest = elim (dec_lt cq.wr_seq (cq.rd_seq + cq.slot_count)) [
    | yes space ↦
        let roomy : ltb (length (contents cq)) cq.slot_count ≡ true =
          rw (length-payloads cq (cq.wr_seq - cq.rd_seq) cq.rd_seq)
            (lt→ltb (cq.wr_seq - cq.rd_seq) cq.slot_count (omega (arith, v.valid.shape.ordered))) in
        rw (put_run cq v space x len fits, roomy)
          (ap (λ l. (enoerr, none) ∷ l)
            (rest (pushed cq x len) (pushed-IsFifo cq v space x len fits) refl refl
              ∙ ap (λ q. bounded_run cq.slot_count q calls) (contents-pushed cq v space x len)))
    | no full ↦
        let tight : ltb (length (contents cq)) cq.slot_count ≡ false =
          rw (length-payloads cq (cq.wr_seq - cq.rd_seq) cq.rd_seq)
            (ltb_of_le (cq.wr_seq - cq.rd_seq) cq.slot_count (omega arith)) in
        rw (put_full cq x len v.valid.shape (omega (arith, v.valid.shape.bounded)), tight)
          (ap (λ l. (enoslot, none) ∷ l) (rest cq v refl refl))
  ]

  run_accept :
      (cq : Cq A) (calls : List (Call A))
      → IsFifo cq
      → ((after : Cq A)
          → IsFifo after
          → after.slot_data_size ≡ cq.slot_data_size
          → after.slot_count ≡ cq.slot_count
          → run after calls ≡ bounded_run cq.slot_count (contents after) calls)
      → run cq (accept ∷ calls) ≡ bounded_run cq.slot_count (contents cq) (accept ∷ calls)
  unfolding run bounded_run
  run_accept cq calls v rest = elim (dec_lt cq.rd_seq cq.wr_seq) [
    | yes filled ↦ rw (take_next_run cq v filled) (
        ap (λ l. (enoerr, some (slot_of cq cq.rd_seq).buff) ∷ l)
          (rest (popped cq) (popped-IsFifo cq v filled) refl refl)
        ∙ ap (λ q. bounded_run cq.slot_count q (accept ∷ calls))
            (sym (contents-popped cq v filled)))
    | no empty ↦ rw (take_next-empty cq v (omega (arith, v.valid.shape.ordered))) (
        let drained : contents cq ≡ [] = contents-drained cq (omega arith) in
        ap (λ l. (enoslot, none) ∷ l) (rest cq v refl refl)
        ∙ ap (λ q. (enoslot, none) ∷ bounded_run cq.slot_count q calls) drained
        ∙ sym (ap (λ q. bounded_run cq.slot_count q (accept ∷ calls)) drained))
  ]

  -- A queue that is used in order gives the replies of a list of at most `__slotCount` payloads,
  -- for every sequence of calls whose payloads are no longer than the queue was made for.
  pub run_refines :
      (calls : List (Call A)) (cq : Cq A)
      → IsFifo cq
      → Fits cq.slot_data_size calls
      → run cq calls ≡ bounded_run cq.slot_count (contents cq) calls
  unfolding run bounded_run
  run_refines [] cq v fits = refl
  run_refines (offer x len ∷ calls) cq v fits =
      run_offer cq x len calls v fits.0 λ after w size count.
        run_refines calls after w (rw size fits.1)
        ∙ ap (λ c. bounded_run c (contents after) calls) count
  run_refines (accept ∷ calls) cq v fits = run_accept cq calls v λ after w size count.
      run_refines calls after w (rw size fits)
      ∙ ap (λ c. bounded_run c (contents after) calls) count

  -- What `cqNew` returns is such a queue, and holds nothing.
  pub new-IsFifo :
      (size log2 : ℕ) (zeroed : A) {cq : Cq A}
      → new (pos size) (pos log2) true true zeroed ≡ some cq
      → IsFifo cq × (contents cq ≡ [])
  unfolding new
  new-IsFifo size log2 zeroed {cq} e =
      let (valid, _, free, room) = new-IsValid size log2 zeroed e in
      (
        record {
          valid = valid;
          full = λ n lo hi. absurd (ground arith);
          free = λ n lo hi. free (n % cq.slot_count);
          room = λ n lo hi. ground (arith, room (n % cq.slot_count));
          size = ground arith;
          readable = ground arith;
          available = ground arith;
          outstanding = ground arith;
        },
        contents-drained cq (ground arith),
      )
