-- ===== src/SelfTest/Table.antt =====
-- src/HashTableTest.c, whatever the hash of a key. The assertions on the value that is found assign
-- it; what `htDelete` hands to its callback is the list of entries.
use etcp.Base.{
  ℕ, ◌≡◌, refl, Bool, true, false, Option, some, ◌>>=◌, ◌==◌, if◌then◌else◌, [], ◌^◌, ap, ◌∙◌,
}
use etcp.HashTable.{HtKey, HtError, Ht, add_new, add_chain, get, get_chain, rem, rem_chain}
use etcp.HashTable
use etcp.HashTable.Lookup.{same_key_refl}
use etcp.HashTable.Change.{add_new-get}
use etcp.SelfTest.{asserting}

-- `err == htENOEROR`.
abbrev is_ht_enoeror : HtError → Bool
is_ht_enoeror HtError.enoeror = true
is_ht_enoeror _ = false

abbrev key : HtKey
key = record { key_lo = 1; key_hi = 1 }

-- `test1` and `test2`: the size of a new table.
unfoldable pub test1 : Option (Ht ℕ)
test1 = HashTable.new 16 true true >>= (λ ht.
    asserting (ht.table_entries_log2 == 16) (asserting (ht.table_entries == 65536) (some ht)))

-- The table of `htNew(16)`.
abbrev sixteen_bits : Ht ℕ
sixteen_bits = record {
  entry_size = 0;
  table_entries_log2 = 16;
  table_entries = 2 ^ 16;
  count = 0;
  table = λ i. [];
}

module _ (hash64 : HtKey → ℕ) where
  -- `test3`: a value is added.
  unfoldable pub test3 : Option (Ht ℕ)
  test3 = HashTable.new 16 true true >>= (λ ht.
      let added = add_new hash64 true ht key 3 in asserting (is_ht_enoeror added.0) (some added.1))

  -- `test4`: it is found. The value 3 that the assertion assigns is not 0.
  unfoldable pub test4 : Option (Ht ℕ)
  test4 = test3 >>= (λ ht.
      let (code, value) = HashTable.get hash64 ht key in
      asserting (is_ht_enoeror code) (value >>= (λ at. some ht)))

  -- `test5`: and removed.
  unfoldable pub test5 : Option (Ht ℕ)
  test5 = test4 >>= (λ ht. some (rem hash64 ht key))

  abbrev added : Ht ℕ
  added = (add_new hash64 true sixteen_bits key 3).1

  test3-added : test3 ≡ some added
  unfolding test3 HashTable.new add_new add_chain
  test3-added = refl

  found : HashTable.get hash64 added key ≡ (HtError.enoeror, some 3)
  found =
      (add_new-get hash64 sixteen_bits key key 3 refl).1
      ∙ ap (λ b. if b then (HtError.enoeror, some 3) else HashTable.get hash64 sixteen_bits key)
          (same_key_refl key)

  -- All of them pass, whatever the hash, and hand on the table with the value, or the table after
  -- its removal.
  tests_pass : (test3 ≡ some added) × (test4 ≡ some added) × (test5 ≡ some (rem hash64 added key))
  unfolding test4 test5
  tests_pass =
      let fourth : test4 ≡ some added =
        ap (λ o. o >>= looked_up) test3-added
        ∙ ap (λ r. asserting (is_ht_enoeror r.0) (r.1 >>= (λ at. some added))) found in
      (test3-added, fourth, ap (λ o. o >>= (λ ht. some (rem hash64 ht key))) fourth)
    where
      looked_up : Ht ℕ → Option (Ht ℕ)
      looked_up ht =
          let (code, value) = HashTable.get hash64 ht key in
          asserting (is_ht_enoeror code) (value >>= (λ at. some ht))
