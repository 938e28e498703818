-- ===== src/HashTable/Change.antt =====
-- What `htAddNew` and `htRem` of src/HashTable.c do to a chain and to later calls of `htGet`.
use etcp.Base.{
  ℕ, ◌≡◌, refl, Bool, true, false, Option, none, some, List, [], ◌∷◌, ◌++◌, if◌then◌else◌,
  Bool-cases, inl, inr, ap, sym, ◌∙◌, update, ◌==◌, ==_iff, ==_refl,
}
use etcp.HashTable.{
  HtKey, HtError, enoeror, enomem, ealready, enotfound, Entry, Ht, same_key, add_chain, add_loop,
  rem_chain, rem_loop, get_idx, add_new, rem, get, get_chain, get_loop,
}
use etcp.HashTable.Lookup.{find, all_but_last, compared, reply, get_chain-compared, same_key_iff}

module _ {ℓ} {V : Type ℓ} where
  abbrev pub entry : HtKey → V → Entry V
  entry key value = record { key = key; value = value }

  -- What the code makes of a chain where its comparisons found `seen`.
  abbrev pub added : Bool → HtKey → V → List (Entry V) → Option V → HtError × List (Entry V)
  added got_entry key value chain (some w) = (ealready, chain)
  added got_entry key value chain none =
      if got_entry then (enoeror, chain ++ entry key value ∷ []) else (enomem, chain)

  add_loop-added :
      (got_entry : Bool) (key : HtKey) (value : V) (e : Entry V) (rest : List (Entry V))
      → add_loop got_entry key value e rest
        ≡ added got_entry key value (e ∷ rest) (find key (all_but_last e rest))
  unfolding add_loop
  add_loop-added got_entry key value e [] = refl
  add_loop-added got_entry key value e (f ∷ rest) = elim (Bool-cases (same_key key e.key)) [
    | inl same ↦ rw same
    | inr other ↦ rw other (
        ap (λ r. (r.0, e ∷ r.1)) (add_loop-added got_entry key value f rest)
        ∙ added-cons got_entry key value e (f ∷ rest) (find key (all_but_last f rest)))
  ]
    where
      added-cons :
          (got_entry : Bool) (key : HtKey) (value : V) (e : Entry V) (chain : List (Entry V))
          (seen : Option V)
          → ((added got_entry key value chain seen).0, e ∷ (added got_entry key value chain seen).1)
            ≡ added got_entry key value (e ∷ chain) seen
      added-cons got_entry key value e chain (some w) = refl
      added-cons true key value e chain none = refl
      added-cons false key value e chain none = refl

  add_chain-added :
      (got_entry : Bool) (key : HtKey) (value : V) (chain : List (Entry V))
      → add_chain got_entry key value chain
        ≡ added got_entry key value chain (find key (compared chain))
  unfolding add_chain
  add_chain-added true key value [] = refl
  add_chain-added false key value [] = refl
  add_chain-added got_entry key value (e ∷ []) = elim (Bool-cases (same_key key e.key)) [
    | inl same ↦ rw same
    | inr other ↦ rw other (add_loop-added got_entry key value e [])
  ]
  add_chain-added got_entry key value (e ∷ f ∷ rest) = elim (Bool-cases (same_key key e.key)) [
    | inl same ↦ rw same
    | inr other ↦ rw (other, ← other) (add_loop-added got_entry key value e (f ∷ rest))
  ]

  find-cons :
      (key : HtKey) (e : Entry V) (chain : List (Entry V))
      → find key (e ∷ chain) ≡ none
      → (same_key key e.key ≡ false) × (find key chain ≡ none)
  find-cons key e chain absent = elim (Bool-cases (same_key key e.key)) [
    | inl same ↦ cc (rw same at absent)
    | inr other ↦ (other, rw other at absent)
  ]

  find-compared :
      (key : HtKey) (chain : List (Entry V))
      → find key chain ≡ none
      → find key (compared chain) ≡ none
  find-compared key [] absent = refl
  find-compared key (e ∷ []) absent = absent
  find-compared key (e ∷ f ∷ rest) absent = from_all key e (f ∷ rest) absent
    where
      from_all :
          (key : HtKey) (e : Entry V) (rest : List (Entry V))
          → find key (e ∷ rest) ≡ none
          → find key (all_but_last e rest) ≡ none
      from_all key e [] absent = refl
      from_all key e (f ∷ rest) absent =
          let (other, behind) = find-cons key e (f ∷ rest) absent in
          rw other (from_all key f rest behind)

  -- With one more entry behind it, the whole of a chain is compared.
  all_but_last-snoc :
      (e : Entry V) (rest : List (Entry V)) (x : Entry V)
      → all_but_last e (rest ++ x ∷ []) ≡ e ∷ rest
  all_but_last-snoc e [] x = refl
  all_but_last-snoc e (f ∷ rest) x = ap (λ l. e ∷ l) (all_but_last-snoc f rest x)

  compared-snoc :
      (e : Entry V) (rest : List (Entry V)) (x : Entry V) → compared (e ∷ rest ++ x ∷ []) ≡ e ∷ rest
  compared-snoc e [] x = refl
  compared-snoc e (f ∷ rest) x = ap (λ l. e ∷ l) (all_but_last-snoc f rest x)

  -- The first entry that the loop finds among those that have a next one.
  rem_loop-found :
      (key : HtKey) (e : Entry V) (mid : List (Entry V)) (f g : Entry V) (rest : List (Entry V))
      → find key (e ∷ mid) ≡ none
      → same_key key f.key ≡ true
      → rem_loop key e (mid ++ f ∷ g ∷ rest) ≡ some (g ∷ rest)
  unfolding rem_loop
  rem_loop-found key e [] f g rest absent found = rw ((find-cons key e [] absent).0, found)
  rem_loop-found key e (m ∷ mid) f g rest absent found =
      let (other, behind) = find-cons key e (m ∷ mid) absent in
      rw other (rem_loop-found key m mid f g rest behind found)

  -- The last of two or more entries is never compared, so it is never found.
  rem_loop-last :
      (key : HtKey) (e : Entry V) (rest : List (Entry V)) (x : Entry V)
      → find key (e ∷ rest) ≡ none
      → rem_loop key e (rest ++ x ∷ []) ≡ none
  unfolding rem_loop
  rem_loop-last key e [] x absent = rw (find-cons key e [] absent).0
  rem_loop-last key e (f ∷ rest) x absent =
      let (other, behind) = find-cons key e (f ∷ rest) absent in
      rw other (rem_loop-last key f rest x behind)

  -- `htRem` of a key behind the first entry of a chain: with the entry it drops all those between
  -- the first entry and that one.
  pub rem_chain-drops :
      (key : HtKey) (e : Entry V) (mid : List (Entry V)) (f g : Entry V) (rest : List (Entry V))
      → find key (e ∷ mid) ≡ none
      → same_key key f.key ≡ true
      → rem_chain key (e ∷ mid ++ f ∷ g ∷ rest) ≡ e ∷ g ∷ rest
  unfolding rem_chain
  rem_chain-drops key e mid f g rest absent found =
      rw ((find-cons key e mid absent).0, rem_loop-found key e mid f g rest absent found, rem_chain)

  rem_chain-last :
      (key : HtKey) (e : Entry V) (rest : List (Entry V)) (x : Entry V)
      → find key (e ∷ rest) ≡ none
      → rem_chain key (e ∷ rest ++ x ∷ []) ≡ e ∷ rest ++ x ∷ []
  unfolding rem_chain
  rem_chain-last key e rest x absent =
      rw ((find-cons key e rest absent).0, rem_loop-last key e rest x absent, rem_chain)

module _ {ℓ} {V : Type ℓ} (hash64 : HtKey → ℕ) where
  -- The bucket of a key.
  abbrev pub bucket : Ht V → HtKey → List (Entry V)
  bucket ht key = ht.table (get_idx hash64 ht key)

  -- A write to one bucket, and what it does to the bucket of a key.
  abbrev pub with_bucket : Ht V → ℕ → List (Entry V) → Ht V
  with_bucket ht i chain = record ht { table = update ht.table i chain }

  bucket-with_bucket :
      (ht : Ht V) (i : ℕ) (chain : List (Entry V)) (q : HtKey)
      → bucket (with_bucket ht i chain) q
        ≡ (if get_idx hash64 ht q == i then chain else bucket ht q)
  unfolding get_idx
  bucket-with_bucket ht i chain q = refl

  -- `htAddNew` refuses a key that it finds among the entries that it compares, and otherwise puts
  -- the new entry last in the key's bucket; no other bucket changes.
  pub add_new-added :
      (got_entry : Bool) (ht : Ht V) (key : HtKey) (value : V)
      → let seen = find key (compared (bucket ht key)) in
        let (code, chain) = added got_entry key value (bucket ht key) seen in
        add_new hash64 got_entry ht key value ≡ (code, with_bucket ht (get_idx hash64 ht key) chain)
  unfolding add_new
  add_new-added got_entry ht key value =
      ap (λ r. (r.0, with_bucket ht (get_idx hash64 ht key) r.1))
        (add_chain-added got_entry key value (bucket ht key))

  get-with_bucket :
      (ht : Ht V) (i : ℕ) (chain : List (Entry V)) (q : HtKey)
      → get hash64 (with_bucket ht i chain) q
        ≡ get_chain q (if get_idx hash64 ht q == i then chain else bucket ht q)
  unfolding get
  get-with_bucket ht i chain q = ap (get_chain q) (bucket-with_bucket ht i chain q)

  bucket-rem :
      (ht : Ht V) (key : HtKey) → bucket (rem hash64 ht key) key ≡ rem_chain key (bucket ht key)
  unfolding rem
  bucket-rem ht key =
      let i = get_idx hash64 ht key in
      bucket-with_bucket ht i (rem_chain key (bucket ht key)) key ∙ rw (==_refl i)

  get_alone :
      (ht : Ht V) (key q : HtKey) (value : V)
      → bucket ht key ≡ []
      → get hash64 (with_bucket ht (get_idx hash64 ht key) (entry key value ∷ [])) q
        ≡ (if same_key q key then (enoeror, some value) else get hash64 ht q)
  unfolding get get_chain get_loop
  get_alone ht key q value empty =
      elim (Bool-cases (get_idx hash64 ht q == get_idx hash64 ht key)) [
        | inl same_idx ↦
            let vacant : bucket ht q ≡ [] = ap ht.table ((==_iff _ _).0 same_idx) ∙ empty in
            get-with_bucket ht _ _ q ∙ rw (same_idx, vacant)
        | inr other_idx ↦
            get-with_bucket ht _ _ q
            ∙ rw other_idx (elim (Bool-cases (same_key q key)) [
              | inl same ↦
                  let one : get_idx hash64 ht q ≡ get_idx hash64 ht key =
                    ap (get_idx hash64 ht) ((same_key_iff q key).0 same) in
                  cc (other_idx, (==_iff _ _).1 one)
              | inr different ↦ rw different
            ])
      ]

  -- Where memory is found, a key put in an empty bucket is found again, and every other key is
  -- answered as before.
  pub add_new-get :
      (ht : Ht V) (key q : HtKey) (value : V)
      → bucket ht key ≡ []
      → let (code, after) = add_new hash64 true ht key value in
        (code ≡ enoeror)
        × (get hash64 after q ≡ (if same_key q key then (enoeror, some value) else get hash64 ht q))
  add_new-get ht key q value empty =
      let run : add_new hash64 true ht key value
          ≡ (enoeror, with_bucket ht (get_idx hash64 ht key) (entry key value ∷ [])) =
        add_new-added true ht key value ∙ rw empty in
      rw run (refl, get_alone ht key q value empty)

  -- Where memory is found, a new key put in a bucket that is not empty is not found again, and it
  -- cannot be removed.
  pub add_new-lost :
      (ht : Ht V) (key : HtKey) (value : V) (e : Entry V) (rest : List (Entry V))
      → bucket ht key ≡ e ∷ rest
      → find key (e ∷ rest) ≡ none
      → let (code, after) = add_new hash64 true ht key value in
        (code ≡ enoeror)
        × (bucket after key ≡ e ∷ rest ++ entry key value ∷ [])
        × (get hash64 after key ≡ (enotfound, none))
        × (bucket (rem hash64 after key) key ≡ bucket after key)
  add_new-lost ht key value e rest here absent =
      let i = get_idx hash64 ht key in
      let chain = e ∷ rest ++ entry key value ∷ [] in
      let run : add_new hash64 true ht key value ≡ (enoeror, with_bucket ht i chain) =
        add_new-added true ht key value ∙ rw (here, find-compared key (e ∷ rest) absent) in
      let after = with_bucket ht i chain in
      let kept : bucket after key ≡ chain = bucket-with_bucket ht i chain key ∙ rw (==_refl i) in
      let missed : get hash64 after key ≡ (enotfound, none) =
        get-with_bucket ht i chain key
        ∙ rw (==_refl i) (
            get_chain-compared key chain
            ∙ ap (λ l. reply (find key l)) (compared-snoc e rest (entry key value))
            ∙ rw absent) in
      let stays : bucket (rem hash64 after key) key ≡ bucket after key =
        bucket-rem after key
        ∙ ap (rem_chain key) kept
        ∙ rem_chain-last key e rest (entry key value) absent
        ∙ sym kept in
      rw run (refl, kept, missed, stays)
