-- ===== src/HashTable.antt =====
-- src/HashTable.h and src/HashTable.c: a chained table from 128-bit keys to pointers. SpookyHash
-- (src/spooky_hash.c) is a library of its own: the hash of a key is the parameter `hash64` of the
-- operations. A bucket's linked list is a list of entries, first entry first, and the success of
-- `calloc` is an argument. With `tableEntriesLog2` 0 the code shifts a 64-bit word by 64, which C
-- leaves undefined.
pub mod Lookup
pub mod Change
use etcp.Base.{
  ℕ, zero, suc, ◌+◌, ◌-◌, ◌*◌, ◌/◌, ◌%◌, ◌^◌, Bool, true, false, ◌&&◌, Option, none, some, List, [],
  ◌∷◌, ◌++◌, ◌==◌, if◌then◌else◌, update,
}

-- `htKey_t`.
pub record HtKey : Type 0 where
  pub key_lo : ℕ
  pub key_hi : ℕ

-- `htError_t`.
pub data HtError : Type 0 where
  enoeror enomem ealready enotfound : HtError

-- `htEntry_t`, less its link.
pub record Entry {ℓ} (V : Type ℓ) : Type ℓ where
  pub key : HtKey
  pub value : V

-- `ht_t`. Nothing sets or reads `entrySize`, and `count` stays 0.
pub record Ht {ℓ} (V : Type ℓ) : Type ℓ where
  pub entry_size : ℕ
  pub table_entries_log2 : ℕ
  pub table_entries : ℕ
  pub count : ℕ
  pub table : ℕ → List (Entry V)

-- `memcmp(a, b, sizeof(htKey_t)) == 0`.
abbrev pub same_key : HtKey → HtKey → Bool
same_key a b = (a.key_lo == b.key_lo) && (a.key_hi == b.key_hi)

-- `htNew`.
unfoldable pub new {ℓ} : {V : Type ℓ} → ℕ → Bool → Bool → Option (Ht V)
new log2 got_ht got_table =
    if got_ht
    then (if got_table
        then some (record {
          entry_size = 0;
          table_entries_log2 = log2;
          table_entries = 2 ^ log2;
          count = 0;
          table = λ i. [];
        })
        else none)
    else none

module _ {ℓ} {V : Type ℓ} where
  -- The loop of `htAddNew` at an entry and those behind it: the code, and the chain from there on.
  unfoldable pub add_loop : Bool → HtKey → V → Entry V → List (Entry V) → HtError × List (Entry V)
  add_loop got_entry key value entry [] =
      if got_entry
      then (enoeror, entry ∷ record { key = key; value = value } ∷ [])
      else (enomem, entry ∷ [])
  add_loop got_entry key value entry (next ∷ rest) =
      let (code, chain) = add_loop got_entry key value next rest in
      if same_key key entry.key then (ealready, entry ∷ next ∷ rest) else (code, entry ∷ chain)

  unfoldable pub add_chain : Bool → HtKey → V → List (Entry V) → HtError × List (Entry V)
  add_chain got_entry key value [] =
      if got_entry then (enoeror, record { key = key; value = value } ∷ []) else (enomem, [])
  add_chain got_entry key value (entry ∷ rest) =
      if same_key key entry.key
      then (ealready, entry ∷ rest)
      else add_loop got_entry key value entry rest

  -- The loop of `htGet`, which stops at the entry that has no next one.
  unfoldable pub get_loop : HtKey → Entry V → List (Entry V) → HtError × Option V
  get_loop key entry [] = (enotfound, none)
  get_loop key entry (next ∷ rest) =
      if same_key key entry.key then (enoeror, some entry.value) else get_loop key next rest

  unfoldable pub get_chain : HtKey → List (Entry V) → HtError × Option V
  get_chain key [] = (enotfound, none)
  get_chain key (entry ∷ rest) =
      if same_key key entry.key then (enoeror, some entry.value) else get_loop key entry rest

  -- The loop of `htRem`: what `entry->next` is at the entry that it finds.
  unfoldable pub rem_loop : HtKey → Entry V → List (Entry V) → Option (List (Entry V))
  rem_loop key entry [] = none
  rem_loop key entry (next ∷ rest) =
      if same_key key entry.key then some (next ∷ rest) else rem_loop key next rest

  -- `prev` is the first entry throughout, as the loop never moves it.
  unfoldable pub rem_chain : HtKey → List (Entry V) → List (Entry V)
  rem_chain key [] = []
  rem_chain key (prev ∷ rest) =
      if same_key key prev.key
      then rest
      else elim (rem_loop key prev rest) [ none ↦ prev ∷ rest | some after ↦ prev ∷ after ]

  -- The outer loop of `htDelete` from bucket `i` on: the entries that `deleteCb` is called on and
  -- that are freed, in order.
  unfoldable pub delete_from : ℕ → ℕ → (ℕ → List (Entry V)) → List (Entry V)
  delete_from zero i table = []
  delete_from (suc left) i table = table i ++ delete_from left (i + 1) table

  unfoldable pub delete : Ht V → List (Entry V)
  delete ht = delete_from ht.table_entries 0 ht.table

module _ {ℓ} {V : Type ℓ} (hash64 : HtKey → ℕ) where
  -- `getIdx`: the top bits of the hash times a 64-bit constant. A shift takes its count modulo 64,
  -- as the machine does: of a table of one entry all bits are left.
  unfoldable pub get_idx : Ht V → HtKey → ℕ
  get_idx ht key =
      hash64 key * 11400714819323198549 % 2 ^ 64 / 2 ^ ((64 - ht.table_entries_log2) % 64)

  -- `htAddNew`, `htGet` and `htRem`.
  unfoldable pub add_new : Bool → Ht V → HtKey → V → HtError × Ht V
  add_new got_entry ht key value =
      let idx = get_idx ht key in
      let (code, chain) = add_chain got_entry key value (ht.table idx) in
      (code, record ht { table = update ht.table idx chain })

  unfoldable pub get : Ht V → HtKey → HtError × Option V
  get ht key = get_chain key (ht.table (get_idx ht key))

  unfoldable pub rem : Ht V → HtKey → Ht V
  rem ht key =
      let idx = get_idx ht key in
      record ht { table = update ht.table idx (rem_chain key (ht.table idx)) }
