-- ===== src/HashTable/Lookup.antt =====
-- What `htGet` of src/HashTable.c finds, against a plain search of the whole chain.
use native.Mathlib.Nat.{one-le-pow, add-zero, pow-zero, pow-suc, div-lt_iff_lt-mul}
use etcp.Base.{
  ℕ, zero, suc, ◌+◌, ◌-◌, ◌*◌, ◌%◌, ◌^◌, ◌≤◌, ◌<◌, ◌≡◌, ◌↔◌, refl, true, Option, none, some, List,
  [], ◌∷◌, if◌then◌else◌, arith, Bool-cases, inl, inr, ap, sym, ◌∙◌,
}
use etcp.HashTable.{
  HtKey, HtError, enoeror, enotfound, Entry, Ht, same_key, get_chain, get_loop, get_idx, get,
}

pub same_key_iff : (a b : HtKey) → (same_key a b ≡ true) ↔ (a ≡ b)
same_key_iff a b = ground arith

pub same_key_refl : (a : HtKey) → same_key a a ≡ true
same_key_refl a = (same_key_iff a a).1 refl

module _ {ℓ} {V : Type ℓ} where
  -- The specification: the value of the first entry that has the key.
  abbrev pub find : HtKey → List (Entry V) → Option V
  find key [] = none
  find key (e ∷ chain) = if same_key key e.key then some e.value else find key chain

  -- The entries that the code compares with the key: all but the last of two or more.
  abbrev pub all_but_last : Entry V → List (Entry V) → List (Entry V)
  all_but_last e [] = []
  all_but_last e (f ∷ rest) = e ∷ all_but_last f rest

  abbrev pub compared : List (Entry V) → List (Entry V)
  compared [] = []
  compared (e ∷ []) = e ∷ []
  compared (e ∷ f ∷ rest) = e ∷ all_but_last f rest

  abbrev pub reply : Option V → HtError × Option V
  reply none = (enotfound, none)
  reply (some v) = (enoeror, some v)

  get_loop-all_but_last :
      (key : HtKey) (e : Entry V) (rest : List (Entry V))
      → get_loop key e rest ≡ reply (find key (all_but_last e rest))
  unfolding get_loop
  get_loop-all_but_last key e [] = refl
  get_loop-all_but_last key e (f ∷ rest) = elim (Bool-cases (same_key key e.key)) [
    | inl same ↦ rw same
    | inr other ↦ rw other (get_loop-all_but_last key f rest)
  ]

  pub get_chain-compared :
      (key : HtKey) (chain : List (Entry V))
      → get_chain key chain ≡ reply (find key (compared chain))
  unfolding get_chain get_loop
  get_chain-compared key [] = refl
  get_chain-compared key (e ∷ []) = elim (Bool-cases (same_key key e.key)) [
    | inl same ↦ rw same
    | inr other ↦ rw other
  ]
  get_chain-compared key (e ∷ f ∷ rest) = elim (Bool-cases (same_key key e.key)) [
    | inl same ↦ rw same
    | inr other ↦ rw other (get_loop-all_but_last key f rest)
  ]

pow_add : (a b : ℕ) → 2 ^ (a + b) ≡ 2 ^ a * 2 ^ b
pow_add a zero = rw (add-zero, pow-zero) (omega arith)
pow_add a (suc b) =
    let shift : a + suc b ≡ suc (a + b) = omega arith in
    rw shift (
      omega (
        arith,
        pow-suc 2 (a + b),
        ap (λ (p : ℕ). p * 2) (pow_add a b),
        ap (λ (p : ℕ). 2 ^ a * p) (pow-suc 2 b),
      ))

module _ {ℓ} {V : Type ℓ} (hash64 : HtKey → ℕ) where
  -- The index of a key is one of the table's, whatever the hash, where the table has `2 ^
  -- tableEntriesLog2` entries and the logarithm is at least 1 and at most 64.
  pub get_idx-lt :
      (ht : Ht V) (key : HtKey)
      → 0 < ht.table_entries_log2
      → ht.table_entries_log2 ≤ 64
      → ht.table_entries ≡ 2 ^ ht.table_entries_log2
      → get_idx hash64 ht key < ht.table_entries
  unfolding get_idx
  get_idx-lt ht key some_bits small size =
      let count : (64 - ht.table_entries_log2) % 64 ≡ 64 - ht.table_entries_log2 = omega arith in
      let product = hash64 key * 11400714819323198549 in
      let width : ht.table_entries_log2 + (64 - ht.table_entries_log2) ≡ 64 = omega arith in
      let whole : 2 ^ ht.table_entries_log2 * 2 ^ (64 - ht.table_entries_log2) ≡ 2 ^ 64 =
        sym (pow_add ht.table_entries_log2 (64 - ht.table_entries_log2)) ∙ ap (λ k. 2 ^ k) width in
      rw (size, count)
        ((div-lt_iff_lt-mul (one-le-pow (64 - ht.table_entries_log2) 2 (omega arith))).1
          (rw whole (omega arith)))

  -- `htGet` answers as a search of the entries that it compares: all of a chain of one, and all but
  -- the last of a longer chain.
  pub get-compared :
      (ht : Ht V) (key : HtKey)
      → get hash64 ht key ≡ reply (find key (compared (ht.table (get_idx hash64 ht key))))
  unfolding get
  get-compared ht key = get_chain-compared key (ht.table (get_idx hash64 ht key))
