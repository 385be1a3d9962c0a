-- ===== src/Workflow/Agreement.antt =====
-- workflow.rs: the status of a workflow in the file.
use hmux.Base.{◌≡◌, some, List, [], ◌∷◌, ◌++◌}
use hmux.Base.Eq.{Bytes, bytes_eq}
use hmux.Model.Ids.{SessionIdentity}
use hmux.Workflow.Hooks.{HookEvent, Report}
use hmux.Base.Map.{All-remove}
use hmux.Workflow.Types.{Env, State}
use hmux.Workflow.Update.{Turn, store_hook, store_report}
use hmux.Workflow.Private.{PrivateDir, private_directory, private-Laws}
use hmux.Workflow.Writes.{Holds, Stays, Did}
use hmux.Workflow.Runs.{Call, run, run-Holds, store_hook-Did, store_report-Did}
use hmux.Workflow.Active.{
  Agrees, AllAgree, prune-AllAgree, record_hook-Agrees, record_report-Agrees,
}

module _ (e : Env) where
  AllAgree-Stays : Stays e private_directory AllAgree
  AllAgree-Stays = record {
    at-default = tt;
    at-prune = prune-AllAgree;
    at-stamp = λ s stamp h. h;
    at-remove = λ s id h. All-remove Agrees id s.workflows h;
  }

  -- The state that the file holds, when it is read.
  abbrev pub InFile : PrivateDir → Type 0
  InFile dir = Holds e private_directory AllAgree dir

  -- In a file whose workflows are each active exactly when one of their nodes is, they still are after
  -- any calls, however their writes end, when the JSON of a state is parsed to it.
  pub run-AllAgree :
      (dir : PrivateDir) (calls : List Call)
      → ((s : State) (raw : Bytes) → e.json s ≡ some raw → e.parse (raw ++ 10 ∷ []) ≡ some s)
      → InFile dir
      → InFile (run e private_directory dir calls)
  run-AllAgree dir calls parse h =
      run-Holds e private_directory AllAgree AllAgree-Stays (private-Laws e parse)
        (record_hook-Agrees e) (record_report-Agrees e) dir calls h

  -- A hook or a report that is accepted leaves a file that is read and whose workflows are active
  -- exactly when one of their nodes is. One that is refused leaves the file as it was, but for the
  -- error `unavailable`, after which the file can also be the new one. This needs such a file before,
  -- and that the JSON of a state is parsed to it.
  pub store-Did :
      (dir : PrivateDir) (turn : Turn) (b : SessionIdentity) (v : HookEvent) (created : Bytes)
      (r : Report)
      → ((s : State) (raw : Bytes) → e.json s ≡ some raw → e.parse (raw ++ 10 ∷ []) ≡ some s)
      → InFile dir
      → Did e private_directory AllAgree dir (store_hook e private_directory dir turn b v)
        × Did e private_directory AllAgree dir
            (store_report e private_directory dir turn b created r)
  store-Did dir turn b v created r parse h = (
    store_hook-Did e private_directory AllAgree AllAgree-Stays (private-Laws e parse)
        (record_hook-Agrees e) (record_report-Agrees e) dir turn b v h,
    store_report-Did e private_directory AllAgree AllAgree-Stays (private-Laws e parse)
        (record_hook-Agrees e) (record_report-Agrees e) dir turn b created r h,
  )
