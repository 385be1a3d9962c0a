-- ===== src/Workflow/Private.antt =====
-- crates/hmux-core/src/lib.rs: the bounded read and the atomic write of `PrivateDir`, for one name.
use hmux.Base.{
  ℕ, ◌≡◌, refl, arith, Bool, true, false, not, Option, none, some, List, [], ◌∷◌, ◌++◌, inr, ltb,
  leb, length, if◌then◌else◌,
}
use hmux.Base.Eq.{Bytes}
use hmux.Workflow.Types.{Env, State, max_bytes}
use hmux.Workflow.Update.{WriteError, before_commit, after_commit, Directory}
use hmux.Workflow.Writes.{Laws}

-- How the steps of one write end: the check of the name, the new temporary file, its mode, the bytes,
-- their sync, the rename, and the sync of the directory.
pub record Steps : Type 0 where
  pub named : Bool
  pub created : Bool
  pub restricted : Bool
  pub written : Bool
  pub synced : Bool
  pub renamed : Bool
  pub directory_synced : Bool

-- The file under the name, whether it opens as a private regular file, and the ends of the writes to
-- come.
pub record PrivateDir : Type 0 where
  pub file : Option Bytes
  pub opens : Bool
  pub writes : List Steps

abbrev pub bounded : ℕ → Option Bytes → Option (Option Bytes)
bounded limit none = some none
bounded limit (some raw) = if ltb limit (length raw) then none else some (some raw)

-- Nothing on a failure, else the bytes, if there is a file.
unfoldable pub read_private : PrivateDir → ℕ → Option (Option Bytes)
read_private dir limit = if not dir.opens then none else bounded limit dir.file

abbrev pub replaced : PrivateDir → Bytes → Bool → PrivateDir × Option WriteError
replaced dir raw true = (record dir { file = some raw; opens = true }, none)
replaced dir raw false = (record dir { file = some raw; opens = true }, some after_commit)

abbrev pub write_with : PrivateDir → Bytes → Steps → PrivateDir × Option WriteError
write_with dir raw w =
    if not w.named
    then (dir, some before_commit)
    else if not w.created
    then (dir, some before_commit)
    else if not w.restricted
    then (dir, some before_commit)
    else if not w.written
    then (dir, some before_commit)
    else if not w.synced
    then (dir, some before_commit)
    else if not w.renamed
    then (dir, some before_commit)
    else replaced dir raw w.directory_synced

-- A write that is not foreseen finds no temporary file.
abbrev pub write_next : PrivateDir → Bytes → List Steps → PrivateDir × Option WriteError
write_next dir raw [] = (dir, some before_commit)
write_next dir raw (w ∷ writes) = write_with (record dir { writes = writes }) raw w

unfoldable pub write_atomic_private : PrivateDir → Bytes → PrivateDir × Option WriteError
write_atomic_private dir raw = write_next dir raw dir.writes

abbrev pub private_directory : Directory
private_directory = record {
  Dir = PrivateDir;
  read_private = λ dir. read_private dir max_bytes;
  write_atomic_private = write_atomic_private;
}

-- What a write leaves when it ends so.
abbrev Ends : PrivateDir → Bytes → PrivateDir × Option WriteError → Type 0
Ends dir raw (d, none) = read_private d max_bytes ≡ some (some raw)
Ends dir raw (d, some before_commit) = read_private d max_bytes ≡ read_private dir max_bytes
Ends dir raw (d, some after_commit) = read_private d max_bytes ≡ some (some raw)

replaced-Ends :
    (old dir : PrivateDir) (raw : Bytes) (b : Bool)
    → leb (length raw) max_bytes ≡ true
    → Ends old raw (replaced dir raw b)
unfolding read_private
replaced-Ends old dir raw true h = ground arith
replaced-Ends old dir raw false h = ground arith

-- A step before the rename.
step-Ends :
    (old dir : PrivateDir) (raw : Bytes) (b : Bool) (x : PrivateDir × Option WriteError)
    → read_private dir max_bytes ≡ read_private old max_bytes
    → Ends old raw x
    → Ends old raw (if not b then (dir, some before_commit) else x)
step-Ends old dir raw true x f h = h
step-Ends old dir raw false x f h = f

write_with-Ends :
    (old dir : PrivateDir) (raw : Bytes) (w : Steps)
    → leb (length raw) max_bytes ≡ true
    → read_private dir max_bytes ≡ read_private old max_bytes
    → Ends old raw (write_with dir raw w)
write_with-Ends old dir raw w h f = step-Ends old dir raw w.named _ f (
    step-Ends old dir raw w.created _ f (
      step-Ends old dir raw w.restricted _ f (
        step-Ends old dir raw w.written _ f (
          step-Ends old dir raw w.synced _ f (
            step-Ends old dir raw w.renamed _ f
              (replaced-Ends old dir raw w.directory_synced h))))))

write_next-Ends :
    (dir : PrivateDir) (raw : Bytes) (writes : List Steps)
    → leb (length raw) max_bytes ≡ true
    → Ends dir raw (write_next dir raw writes)
unfolding read_private
write_next-Ends dir raw [] h = refl
write_next-Ends dir raw (w ∷ writes) h =
    write_with-Ends dir (record dir { writes = writes }) raw w h refl

Ends-ok :
    (dir : PrivateDir) (raw : Bytes) (r : PrivateDir × Option WriteError)
    → Ends dir raw r
    → r.1 ≡ none
    → read_private r.0 max_bytes ≡ some (some raw)
Ends-ok dir raw (d, none) h f = h
Ends-ok dir raw (d, some x) h f = cc

Ends-before :
    (dir : PrivateDir) (raw : Bytes) (r : PrivateDir × Option WriteError)
    → Ends dir raw r
    → r.1 ≡ some before_commit
    → read_private r.0 max_bytes ≡ read_private dir max_bytes
Ends-before dir raw (d, none) h f = cc
Ends-before dir raw (d, some before_commit) h f = h
Ends-before dir raw (d, some after_commit) h f = cc

Ends-after :
    (dir : PrivateDir) (raw : Bytes) (r : PrivateDir × Option WriteError)
    → Ends dir raw r
    → r.1 ≡ some after_commit
    → read_private r.0 max_bytes ≡ some (some raw)
Ends-after dir raw (d, none) h f = cc
Ends-after dir raw (d, some before_commit) h f = cc
Ends-after dir raw (d, some after_commit) h f = h

-- The private directory has the laws of the files.
pub private-Laws :
    (e : Env)
    → ((s : State) (raw : Bytes) → e.json s ≡ some raw → e.parse (raw ++ 10 ∷ []) ≡ some s)
    → Laws e private_directory
unfolding write_atomic_private
private-Laws e parse = record {
  write-ok = λ dir raw h f. Ends-ok dir raw _ (write_next-Ends dir raw dir.writes h) f;
  write-before = λ dir raw h f. Ends-before dir raw _ (write_next-Ends dir raw dir.writes h) f;
  write-after = λ dir raw h f. inr (Ends-after dir raw _ (write_next-Ends dir raw dir.writes h) f);
  parse-json = parse;
}
