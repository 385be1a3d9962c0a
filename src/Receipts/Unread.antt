-- ===== src/Receipts/Unread.antt =====
-- tab_completions.rs: the answers of `State::acknowledge`.
use hmux.Base.{
  ◌≡◌, refl, arith, Bool, true, false, ◌&&◌, Option, none, some, List, [], ◌∷◌, ◌++◌, ◌==◌, length,
  drop, filter, All, if_lem, if◌then◌else◌, find, any,
}
use hmux.Base.Eq.{Bytes, bytes_eq, bytes_beq, bytes_beq_iff}
use hmux.Model.Ids.{SessionIdentity, identity_beq, identity_beq_iff}
use hmux.Receipts.Types.{Env, Event, Reads, max_entries, Result, ok, err}
use hmux.Receipts.Storage.{State, Entry, Snapshot, snapshot, is_read, entries_of, read_account}
use hmux.Receipts.Acknowledge.{
  SessionAccess, ReadRequest, Moment, account_key, answered, save, acknowledge, with_read, sent,
  saved, chosen, marked, asked, event_beq, is_live,
}

-- The entries of the completion that a request names are read.
abbrev pub Marked : ReadRequest → Entry → Type 0
Marked request n = (asked request n.event && n.unread) ≡ false

is_read-same :
    (reads : Reads) (x y : Event)
    → x.session ≡ y.session
    → x.event_id ≡ y.event_id
    → is_read reads x ≡ is_read reads y
unfolding is_read
is_read-same reads x y s i = rw (s, i) refl

asked-same :
    (request : ReadRequest) (x y : Event)
    → asked request x ≡ true
    → asked request y ≡ true
    → (x.session ≡ y.session) × (x.event_id ≡ y.event_id)
asked-same request x y hx hy = ground (
  arith,
  identity_beq_iff x.session request.session,
  identity_beq_iff y.session request.session,
  bytes_beq_iff x.event_id request.event_id,
  bytes_beq_iff y.event_id request.event_id,
)

entries_of-Marked :
    (request : ReadRequest) (reads : Reads) (x : Event) (live : List SessionIdentity)
    (xs : List Event)
    → asked request x ≡ true
    → is_read reads x ≡ true
    → All (Marked request) (entries_of reads live xs)
unfolding entries_of
entries_of-Marked request reads x live [] a r = tt
entries_of-Marked request reads x live (y ∷ ys) a r =
    let rest = entries_of-Marked request reads x live ys a r in
    if_lem (λ ns. All (Marked request) ns) (any (identity_beq y.session) live)
      (λ lives. (ground (arith, asked-same request x y a, is_read-same reads x y), rest))
      (λ gone. rest)

any-append :
    (p : Event → Bool) (xs : List Event) (x : Event) → p x ≡ true → any p (xs ++ x ∷ []) ≡ true
any-append p [] x h = ground arith
any-append p (y ∷ ys) x h = ground (arith, any-append p ys x h)

is_read-with_read :
    (reads : Reads) (x : Event) (live : List SessionIdentity)
    → is_read (with_read reads x live) x ≡ true
unfolding is_read with_read
is_read-with_read reads x live =
    let kept : List Event = filter (is_live live x.session) reads.events in
    any-append
      (λ r. if identity_beq r.session x.session then bytes_beq r.event_id x.event_id else false)
      (if length kept == max_entries then drop 1 kept else kept) x
      (ground (arith, identity_beq_iff x.session x.session, bytes_beq_iff x.event_id x.event_id))

is_read_of_any :
    (x : Event) (reads : Reads) → any (event_beq x) reads.events ≡ true → is_read reads x ≡ true
unfolding is_read
is_read_of_any x reads h = go reads.events h
  where
    go :
        (xs : List Event)
        → any (event_beq x) xs ≡ true
        → any
            (λ r.
              if identity_beq r.session x.session then bytes_beq r.event_id x.event_id else false)
            xs
          ≡ true
    go [] h = ground arith
    go (r ∷ rs) h = ground (
      arith,
      go rs,
      identity_beq_iff x.session r.session,
      identity_beq_iff r.session x.session,
      bytes_beq_iff x.event_id r.event_id,
      bytes_beq_iff r.event_id x.event_id,
    )

find-true : (p : Event → Bool) (xs : List Event) (x : Event) → find p xs ≡ some x → p x ≡ true
find-true p [] x h = ground arith
find-true p (y ∷ ys) x h = ground (arith, find-true p ys x)

module _ (e : Env) (t : State e) (n : Snapshot) (request : ReadRequest) where
  -- What an answer without an error shows, and the ledger that it leaves.
  abbrev pub Answer : State e → Type 0
  Answer s = All (Marked request) n.entries × (t.ledger ≡ s.ledger)

  answered-Answer :
      (s : State e) (dir : e.Dir) (key : Bytes) (reads : Reads) (live : List SessionIdentity)
      (x : Event)
      → asked request x ≡ true
      → is_read reads x ≡ true
      → answered e s dir key reads live ≡ (t, ok n)
      → Answer s
  unfolding answered snapshot
  answered-Answer s dir key reads live x a r h =
      let same : n ≡ snapshot s.ledger reads live = ground arith in
      (rw same (entries_of-Marked request reads x live s.ledger.events a r), ground arith)

  module _ (s : State e) (live : List SessionIdentity) (x : Event)
      (a : asked request x ≡ true) where
    saved-Answer :
        (key : Bytes) (reads : Reads) (w : e.Dir × Bool)
        → is_read reads x ≡ true
        → saved e s key reads live w ≡ (t, ok n)
        → Answer s
    saved-Answer key reads (dir, true) r h = answered-Answer s dir key reads live x a r h
    saved-Answer key reads (dir, false) r h = ground arith

    module _ (access : SessionAccess) (second : Moment) where
      sent-Answer :
          (reads : Reads) (o : Option Bytes)
          → is_read reads x ≡ true
          → sent e access live second s reads o ≡ (t, ok n)
          → Answer s
      sent-Answer reads none r h = ground arith
      sent-Answer reads (some raw) r h = ground (
        arith,
        saved-Answer (account_key e access) reads
            (e.write_atomic_private s.dir (account_key e access) raw) r,
      )

      save-Answer :
          (reads : Reads)
          → is_read reads x ≡ true
          → save e access live second s reads ≡ (t, ok n)
          → Answer s
      unfolding save
      save-Answer reads r h = ground (arith, sent-Answer reads (e.to_json reads) r)

      marked-Answer : (r : Result Reads) → marked e access live second s x r ≡ (t, ok n) → Answer s
      marked-Answer (err y) h = ground arith
      marked-Answer (ok reads) h = ground (
        arith,
        answered-Answer s s.dir (account_key e access) reads live x a,
        is_read_of_any x reads,
        save-Answer (with_read reads x live) (is_read-with_read reads x live),
      )

  module _ (s : State e) (live : List SessionIdentity) (access : SessionAccess)
      (second : Moment) where
    chosen-Answer :
        (o : Option Event)
        → ((x : Event) → o ≡ some x → asked request x ≡ true)
        → chosen e access live second s o ≡ (t, ok n)
        → Answer s
    chosen-Answer none f h = ground arith
    chosen-Answer (some x) f h =
        marked-Answer s live x (f x refl) access second
          (read_account e s.dir (account_key e access)) h

    -- When a receipt is acknowledged without an error, no entry of the answer with the session and the
    -- event id of the request is unread, and the ledger is left as it was.
    pub acknowledge-Answer :
        (first : Moment) → acknowledge e access live second s request first ≡ (t, ok n) → Answer s
    unfolding acknowledge
    acknowledge-Answer first h = ground (
      arith,
      chosen-Answer (find (asked request) s.ledger.events)
          (λ x f. find-true (asked request) s.ledger.events x f),
    )
