-- ===== src/Sack/Ranges.antt =====
-- The ranges of a packet of acknowledgements as the list of the numbers in them: src/etcp.c.
use etcp.Base.{
  ℕ, zero, suc, ◌+◌, ◌-◌, ◌%◌, ◌^◌, ◌≤◌, ◌<◌, ◌≡◌, refl, sym, ap, subst, ◌∙◌, true, false, List, [],
  ◌∷◌, ◌++◌, pos, ◌-ℤ◌, update, ◌==◌, ==_refl, if◌then◌else◌, arith, Bool-cases, inl, inr,
}
use etcp.Packet.{PBuff, SackField}
use etcp.Conn.{Conn}
use etcp.Sack.Offset
use etcp.Sack.Offset.{sub_pos}
use etcp.Sack.{Draft, closed, started, counted, wrap_32}

-- The `count` numbers from `n` on, and those of the first `k` fields.
abbrev pub run : ℕ → ℕ → List ℕ
run n zero = []
run n (suc count) = run n count ++ (n + count) ∷ []

abbrev pub ranges : ℕ → ℕ → (ℕ → SackField) → List ℕ
ranges base zero fields = []
ranges base (suc k) fields = ranges base k fields ++ run (base + (fields k).offset) (fields k).count

-- The numbers of a draft, its last field included.
abbrev pub numbers : ℕ → Draft → List ℕ
numbers base d = ranges base (suc d.field_idx) d.sack_fields

-- A draft before number `i`: the field in progress ends there, and later fields are empty.
pub record IsDraft (base i : ℕ) (d : Draft) : Type 0 where
  pub open_field :
      d.field_in_progress ≡ true
      → base + (d.sack_fields d.field_idx).offset + (d.sack_fields d.field_idx).count ≡ i
  pub no_field : d.field_in_progress ≡ false → (d.sack_fields d.field_idx).count ≡ 0
  pub beyond : (j : ℕ) → d.field_idx < j → (d.sack_fields j).count ≡ 0

pub append-nil : (xs : List ℕ) → xs ++ [] ≡ xs
append-nil [] = refl
append-nil (x ∷ xs) = ap (λ l. x ∷ l) (append-nil xs)

-- A write beyond the fields that are read.
ranges-update :
    (base k i : ℕ) (fields : ℕ → SackField) (f : SackField)
    → k ≤ i
    → ranges base k (update fields i f) ≡ ranges base k fields
ranges-update base zero i fields f le = refl
ranges-update base (suc k) i fields f le =
    let apart : (k == i) ≡ false = ground arith in
    rw (ranges-update base k i fields f (omega arith), apart) refl

numbers-update :
    (base : ℕ) (d : Draft) (f : SackField)
    → ranges base (suc d.field_idx) (update d.sack_fields d.field_idx f)
      ≡ ranges base d.field_idx d.sack_fields ++ run (base + f.offset) f.count
numbers-update base d f =
    rw
      (
        ranges-update base d.field_idx d.field_idx d.sack_fields f (omega arith),
        ==_refl d.field_idx,
      )
      refl

pub append-append : (xs ys zs : List ℕ) → (xs ++ ys) ++ zs ≡ xs ++ (ys ++ zs)
append-append [] ys zs = refl
append-append (x ∷ xs) ys zs = ap (λ l. x ∷ l) (append-append xs ys zs)

add_one : (n : ℕ) → n + 1 ≡ suc n
add_one n = omega arith

-- A missing number: a field in progress is closed, and no number is added.
abbrev shut : Draft → Draft
shut d = record d { field_idx = d.field_idx + 1; field_in_progress = false }

pub closed-elim :
    (P : Draft → Type 0) (d : Draft)
    → (d.field_in_progress ≡ true → P (shut d))
    → (d.field_in_progress ≡ false → P d)
    → P (closed d)
closed-elim P d opened idle = elim (Bool-cases d.field_in_progress) [
  | inl yes_open ↦ subst (λ b. P (if b then shut d else d)) (sym yes_open) (opened yes_open)
  | inr not_open ↦ subst (λ b. P (if b then shut d else d)) (sym not_open) (idle not_open)
]

pub closed-IsDraft : (base i : ℕ) (d : Draft) → IsDraft base i d → IsDraft base (i + 1) (closed d)
closed-IsDraft base i d s =
    closed-elim (IsDraft base (i + 1)) d
      (λ opened. record {
        open_field = λ h. absurd (ground arith);
        no_field = λ h. s.beyond (d.field_idx + 1) (omega arith);
        beyond = λ j less. s.beyond j (omega arith);
      })
      (λ idle. record {
        open_field = λ h. absurd (ground (arith, h, idle));
        no_field = s.no_field;
        beyond = s.beyond;
      })

pub closed-numbers :
    (base i : ℕ) (d : Draft) → IsDraft base i d → numbers base (closed d) ≡ numbers base d
closed-numbers base i d s =
    closed-elim (λ c. numbers base c ≡ numbers base d) d
      (λ opened.
        let later : (d.sack_fields (suc d.field_idx)).count ≡ 0 =
          s.beyond (suc d.field_idx) (omega arith) in
        rw (add_one d.field_idx, later) (append-nil (numbers base d)))
      (λ idle. refl)

-- A received number, counted in the field in progress.
pub counted-IsDraft :
    (base i : ℕ) (d : Draft) (p : PBuff)
    → d.field_in_progress ≡ true
    → i + 1 < base + 2 ^ 32
    → IsDraft base i d
    → IsDraft base (i + 1) (counted p d)
counted-IsDraft base i d p opened small s =
    let field = d.sack_fields d.field_idx in
    let at = s.open_field opened in
    let exact : (field.count + 1) % 2 ^ 32 ≡ field.count + 1 = omega (arith, at) in
    record {
      open_field = λ _. rw (==_refl d.field_idx, exact) (omega (arith, at));
      no_field = λ h. absurd (ground (arith, opened, h));
      beyond = λ j less.
          let apart : (j == d.field_idx) ≡ false = ground arith in rw apart (s.beyond j less);
    }

pub counted-numbers :
    (base i : ℕ) (d : Draft) (p : PBuff)
    → d.field_in_progress ≡ true
    → i + 1 < base + 2 ^ 32
    → IsDraft base i d
    → numbers base (counted p d) ≡ numbers base d ++ i ∷ []
counted-numbers base i d p opened small s =
    let field = d.sack_fields d.field_idx in
    let at = s.open_field opened in
    let exact : (field.count + 1) % 2 ^ 32 ≡ field.count + 1 = omega (arith, at) in
    let more : SackField = record { offset = field.offset; count = (field.count + 1) % 2 ^ 32 } in
    numbers-update base d more
    ∙ ap (λ c. ranges base d.field_idx d.sack_fields ++ run (base + field.offset) c)
        (exact ∙ add_one field.count)
    ∙ sym (
        append-append (ranges base d.field_idx d.sack_fields)
          (run (base + field.offset) field.count) ((base + field.offset + field.count) ∷ []))
    ∙ ap (λ n. numbers base d ++ n ∷ []) at

-- A received number that starts a field, where the connection expects `base`.
pub started-IsDraft :
    (base i : ℕ) (conn : Conn) (d : Draft) (p : PBuff)
    → conn.seq_ack ≡ pos base
    → p.etcp_dat_hdr.seq_num ≡ i
    → base ≤ i
    → i < base + 2 ^ 32
    → d.field_in_progress ≡ false
    → IsDraft base i d
    → IsDraft base i (started conn p d)
started-IsDraft base i conn d p expected own from small idle s =
    let offset : wrap_32 (pos p.etcp_dat_hdr.seq_num -ℤ conn.seq_ack) ≡ i - base =
      ap (λ a. wrap_32 (pos p.etcp_dat_hdr.seq_num -ℤ a)) expected
      ∙ ap (λ n. wrap_32 (pos n -ℤ pos base)) own
      ∙ ap wrap_32 (sub_pos i base from)
      ∙ Offset.small (i - base) (omega arith) in
    record {
      open_field = λ _. rw (==_refl d.field_idx, offset) (omega arith);
      no_field = λ h. absurd (ground arith);
      beyond = λ j less.
          let apart : (j == d.field_idx) ≡ false = ground arith in rw apart (s.beyond j less);
    }

pub started-numbers :
    (base i : ℕ) (conn : Conn) (d : Draft) (p : PBuff)
    → d.field_in_progress ≡ false
    → IsDraft base i d
    → numbers base (started conn p d) ≡ numbers base d
started-numbers base i conn d p idle s =
    let empty : SackField = record {
      offset = wrap_32 (pos p.etcp_dat_hdr.seq_num -ℤ conn.seq_ack);
      count = 0;
    } in
    numbers-update base d empty
    ∙ ap
        (λ c.
          ranges base d.field_idx d.sack_fields
          ++ run (base + (d.sack_fields d.field_idx).offset) c)
        (sym (s.no_field idle))
