-- ===== src/Hub/Uploads.antt =====
-- hub.rs: the messages of Home about an upload. One of the three event slots is kept for the last
-- event: a progress event that would take it cancels the upload instead.
use hmux.Base.{ℕ, true, not, List, Option, none, some, leb, if◌then◌else◌}
use hmux.Base.Eq.{bytes_eq}
use hmux.Base.Map.{lookup, insert, remove}
use hmux.Base.Channel as Channel
use hmux.Hub.State.{
  capacity, UploadEvent, upload_cancel, Channels, UploadState, State, Outcome, done, fail,
}
use hmux.Hub.Peers.{cleanup}
use hmux.Hub.Dispatch.{Reply}

module _ (c : Channels) where
  unfoldable pub cancel_upload : State c → ℕ → List ℕ → Outcome c
  unfolding cleanup
  cancel_upload s generation id =
      let s' = record s { uploads = remove id s.uploads } in
      record { state = s'; effects = cleanup c s' generation (upload_cancel id); error = none }

  abbrev pub keep_upload : State c → List ℕ → UploadState c → State c
  keep_upload s id u = record s { uploads = insert id u s.uploads }

  unfoldable pub progress : State c → ℕ → List ℕ → UploadEvent → Option (UploadState c) → Outcome c
  unfolding cancel_upload
  progress s generation id event none = done c s
  progress s generation id event (some u) =
      if u.terminal
      then done c s
      else if leb (Channel.capacity c.upload u.events) 1
      then cancel_upload s generation id
      else elim (c.upload.try_send u.events event) [
        | none ↦ cancel_upload s generation id
        | some events ↦ done c (keep_upload s id (record u { events = events }))
      ]

  -- UploadReady and UploadAck.
  unfoldable pub dispatch_progress : State c → ℕ → List ℕ → UploadEvent → Outcome c
  unfolding progress
  dispatch_progress s generation id event = progress s generation id event (lookup id s.uploads)

  unfoldable pub finish : State c → Reply → UploadEvent → Option (UploadState c) → Outcome c
  finish s r event none = done c s
  finish s r event (some u) =
      if u.terminal
      then done c s
      else if not r.admits
      then fail c s capacity
      else elim (c.upload.try_send u.events event) [
        | none ↦ fail c (keep_upload s r.response.id (record u { terminal = true })) capacity
        | some events ↦
            done c (keep_upload s r.response.id (record u { terminal = true; events = events }))
      ]

  -- UploadComplete and UploadError.
  unfoldable pub dispatch_finish : State c → Reply → UploadEvent → Outcome c
  unfolding finish
  dispatch_finish s r event = finish s r event (lookup r.response.id s.uploads)
