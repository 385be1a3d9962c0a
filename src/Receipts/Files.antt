-- ===== src/Receipts/Files.antt =====
-- tab_completions.rs: the memory of the state beside its files.
use hmux.Base.{
  ◌≤◌, ◌≡◌, ◌≢◌, ◌⊎◌, inl, inr, refl, arith, true, some, List, [], ◌∷◌, ◌++◌, ◌==◌, length, drop,
  All, All-append, All-drop, length-append, length-drop, if_lem, ◌∙◌,
}
use hmux.Base.Eq.{Bytes, bytes_eq}
use hmux.Base.Map.{remove, All-remove_ne, length-remove-le}
use hmux.Receipts.Types.{Env, Ledger, Reads, Laws, events_file, valid_rows, ok, cache_accounts}
use hmux.Receipts.Storage.{State, cache, load, read_account}

module _ (e : Env) where
  -- A cached entry is what the account's file holds.
  abbrev pub Held : e.Dir → Bytes × Reads → Type 0
  Held dir x = (x.0 ≢ events_file) × (read_account e dir x.0 ≡ ok x.1)

  -- The ledger is its file's, unless a write failed; the receipts are their files'.
  abbrev pub Coherent : State e → Type 0
  Coherent s =
      ((s.storage_failed ≡ true) ⊎ (read_account e s.dir events_file ≡ ok s.ledger))
      × All (Held s.dir) s.reads
      × (length s.reads ≤ cache_accounts)

  pub cache-Held :
      (dir : e.Dir) (key : Bytes) (value : Reads) (m : List (Bytes × Reads))
      → Held dir (key, value)
      → All (Held dir) (remove key m)
      → All (Held dir) (cache key value m)
  unfolding cache
  cache-Held dir key value m h hm =
      All-append (Held dir) _ ((key, value) ∷ [])
        (if_lem (λ xs. All (Held dir) xs) (length (remove key m) == cache_accounts)
          (λ full. All-drop (Held dir) 1 (remove key m) hm) (λ room. hm))
        (h, tt)

  pub length-cache-le :
      (key : Bytes) (value : Reads) (m : List (Bytes × Reads))
      → length m ≤ cache_accounts
      → length (cache key value m) ≤ cache_accounts
  unfolding cache
  length-cache-le key value m h =
      let last_entry : List (Bytes × Reads) = (key, value) ∷ [] in
      if_lem (λ xs. length (xs ++ last_entry) ≤ cache_accounts)
        (length (remove key m) == cache_accounts)
        (λ full.
          ground
            (arith, length-append (drop 1 (remove key m)) last_entry, length-drop 1 (remove key m)))
        (λ room. ground (arith, length-append (remove key m) last_entry, length-remove-le key m))

  module _ (l : Laws e) where
    -- A file that is not written is read as before.
    read-write_other :
        (d : e.Dir) (name other raw : Bytes)
        → other ≢ name
        → read_account e (e.write_atomic_private d name raw).0 other ≡ read_account e d other
    unfolding read_account load
    read-write_other d name other raw ne = rw (l.others_kept d name other raw ne)

    -- Valid rows that are written are read back.
    pub read-write :
        (d : e.Dir) (name raw : Bytes) (rows : Ledger)
        → valid_rows e rows ≡ true
        → e.to_json rows ≡ some raw
        → (e.write_atomic_private d name raw).1 ≡ true
        → read_account e (e.write_atomic_private d name raw).0 name ≡ ok rows
    unfolding read_account load
    read-write d name raw rows v j w =
        rw (l.read_back d name raw w (l.json_fits rows raw v j), l.json_back rows raw j, v) refl

    -- The entries of other accounts stay good when one file is written.
    pub Held-write :
        (d : e.Dir) (name raw : Bytes) (m : List (Bytes × Reads))
        → All (Held d) m
        → All (Held (e.write_atomic_private d name raw).0) (remove name m)
    Held-write d name raw m h =
        All-remove_ne (Held d) (Held (e.write_atomic_private d name raw).0) name m
          (λ x ne p. (p.0, read-write_other d name x.0 raw ne ∙ p.1)) h

    pub Held-write_ledger :
        (d : e.Dir) (raw : Bytes) (m : List (Bytes × Reads))
        → All (Held d) m
        → All (Held (e.write_atomic_private d events_file raw).0) m
    Held-write_ledger d raw [] h = tt
    Held-write_ledger d raw ((k, v) ∷ m) h =
        ((h.0.0, read-write_other d events_file k raw h.0.0 ∙ h.0.1), Held-write_ledger d raw m h.1)

    pub ledger_kept :
        (s : State e) (key raw : Bytes)
        → events_file ≢ key
        → ((s.storage_failed ≡ true) ⊎ (read_account e s.dir events_file ≡ ok s.ledger))
        → ((s.storage_failed ≡ true)
            ⊎ (read_account e (e.write_atomic_private s.dir key raw).0 events_file ≡ ok s.ledger))
    ledger_kept s key raw ne (inl f) = inl f
    ledger_kept s key raw ne (inr r) = inr (read-write_other s.dir key events_file raw ne ∙ r)
