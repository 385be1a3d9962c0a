-- ===== src/Base/Channel.antt =====
-- What the code relies on of a bounded `tokio::sync::mpsc` channel, which is not in the repository:
-- a queue with a limit, whose `try_send` appends to it if there is room and the receiver is not closed.
-- A lease closes its receiver when it is dropped, after the hub has let go of the sender.
use hmux.Base.Lists.{length}
use Prim.Native.Nat.{ℕ, ◌-◌, ◌<◌}
use mathlib.Core.Path.{◌≡◌}
use mathlib.Core.Bool.{Bool, false}
use mathlib.Core.List.{List, [], ◌∷◌, ◌++◌}
use mathlib.Core.Option.{Option, some}

pub record Mpsc (E : Type 0) : Type 1 where
  pub Chan : Type 0
  pub channel : ℕ → Chan
  -- The values sent and not yet received, oldest first.
  pub contents : Chan → List E
  pub limit : Chan → ℕ
  pub closed : Chan → Bool
  pub try_send : Chan → E → Option Chan
  pub recv : Chan → Option (E × Chan)
  pub contents-channel : (n : ℕ) → contents (channel n) ≡ []
  pub limit-channel : (n : ℕ) → limit (channel n) ≡ n
  pub closed-channel : (n : ℕ) → closed (channel n) ≡ false
  pub try_send_room :
      (c : Chan) (e : E)
      → closed c ≡ false
      → length (contents c) < limit c
      → (c' : Chan) × (try_send c e ≡ some c')
  pub try_send_open : (c c' : Chan) (e : E) → try_send c e ≡ some c' → closed c' ≡ false
  pub try_send_sent :
      (c c' : Chan) (e : E)
      → try_send c e ≡ some c'
      → (contents c' ≡ contents c ++ e ∷ [])
        × (limit c' ≡ limit c)
        × (length (contents c) < limit c)
  pub recv_sent :
      (c c' : Chan) (e : E)
      → recv c ≡ some (e, c')
      → (contents c ≡ e ∷ contents c') × (limit c' ≡ limit c)
  pub recv_closed : (c c' : Chan) (e : E) → recv c ≡ some (e, c') → closed c' ≡ closed c

-- `Sender::capacity`: the sends that the channel still has room for.
abbrev pub capacity : {E : Type 0} (m : Mpsc E) → m.Chan → ℕ
capacity m c = m.limit c - length (m.contents c)
