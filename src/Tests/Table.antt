-- ===== src/Tests/Table.antt =====
-- A table of src/HashTable.c with four buckets, and a hash that puts every key in the first one.
use etcp.Base.{ℕ, ◌≡◌, refl, true, some, none, arith, List, [], ◌∷◌, ◌<◌, ◌++◌, if◌then◌else◌}
use etcp.HashTable.{
  HtKey, enoeror, enotfound, Entry, Ht, same_key, new, get_idx, get, add_new, rem, rem_chain,
}
use etcp.HashTable.Lookup.{find, compared, reply, get_idx-lt, get-compared}
use etcp.HashTable.Change.{
  entry, added, rem_chain-drops, bucket, with_bucket, add_new-added, add_new-get, add_new-lost,
}

abbrev key : ℕ → HtKey
key n = record { key_lo = n; key_hi = 0 }

-- The number 0 for every key.
abbrev hash_zero : HtKey → ℕ
hash_zero k = 0

abbrev no_entries : Ht ℕ
no_entries = record {
  entry_size = 0;
  table_entries_log2 = 2;
  table_entries = 4;
  count = 0;
  table = λ i. [];
}

new-no_entries : new {V = ℕ} 2 true true ≡ some no_entries
unfolding new
new-no_entries = refl

abbrev one_entry : Ht ℕ
one_entry = with_bucket hash_zero no_entries 0 (entry (key 1) 10 ∷ [])

abbrev three_entries : List (Entry ℕ)
three_entries = entry (key 1) 10 ∷ entry (key 2) 20 ∷ entry (key 3) 30 ∷ []

abbrev three : Ht ℕ
three = with_bucket hash_zero no_entries 0 three_entries

get_idx-lt_example : get_idx hash_zero one_entry (key 5) < 4
get_idx-lt_example =
    get_idx-lt hash_zero one_entry (key 5) (omega arith) (omega arith) (omega arith)

get-compared_example :
    get hash_zero three (key 2)
    ≡ reply (find (key 2) (compared (three.table (get_idx hash_zero three (key 2)))))
get-compared_example = get-compared hash_zero three (key 2)

add_new-added_example :
    let seen = find (key 2) (compared (bucket hash_zero one_entry (key 2))) in
    let (code, chain) = added true (key 2) 20 (bucket hash_zero one_entry (key 2)) seen in
    add_new hash_zero true one_entry (key 2) 20
    ≡ (code, with_bucket hash_zero one_entry (get_idx hash_zero one_entry (key 2)) chain)
add_new-added_example = add_new-added hash_zero true one_entry (key 2) 20

add_new-get_example :
    let (code, after) = add_new hash_zero true no_entries (key 1) 10 in
    (code ≡ enoeror)
    × (get hash_zero after (key 1) ≡ (
        if same_key (key 1) (key 1) then (enoeror, some 10) else get hash_zero no_entries (key 1)))
add_new-get_example = add_new-get hash_zero no_entries (key 1) (key 1) 10 refl

add_new-lost_example :
    let (code, after) = add_new hash_zero true one_entry (key 2) 20 in
    (code ≡ enoeror)
    × (bucket hash_zero after (key 2) ≡ entry (key 1) 10 ∷ [] ++ entry (key 2) 20 ∷ [])
    × (get hash_zero after (key 2) ≡ (enotfound, none))
    × (bucket hash_zero (rem hash_zero after (key 2)) (key 2) ≡ bucket hash_zero after (key 2))
unfolding get_idx
add_new-lost_example = add_new-lost hash_zero one_entry (key 2) 20 (entry (key 1) 10) [] refl refl

abbrev item : ℕ → ℕ → Entry ℕ
item k v = entry (key k) v

rem_chain-drops_example :
    rem_chain (key 3) (item 1 10 ∷ (item 2 20 ∷ []) ++ item 3 30 ∷ item 4 40 ∷ [])
    ≡ item 1 10 ∷ item 4 40 ∷ []
rem_chain-drops_example =
    rem_chain-drops (key 3) (item 1 10) (item 2 20 ∷ []) (item 3 30) (item 4 40) [] refl refl
