-- ===== src/Hardware/Life.antt =====
-- The life of a device: bring-ups, sessions of commands and workitems, releases.
use wificx_skeleton.Prelude.{List, [], ◌∷◌}
use wificx_skeleton.Platform.System.{System}
use wificx_skeleton.Device.{ChipOps}
use wificx_skeleton.Framework.{Machine, Framework}
use wificx_skeleton.Sessions.{Turn, session}
use wificx_skeleton.Hardware.Memory.{cycle}

-- A stretch of the life: how the framework and the system answer in it, and the session between the
-- bring-up and the release.
pub record Stretch : Type 0 where
  pub framework : Framework
  pub system : System
  pub turns : List Turn

pub cycles : ChipOps → List Stretch → Machine → Machine
cycles ops [] c = c
cycles ops (s ∷ ss) c =
    cycles ops ss (cycle s.framework s.system ops (session s.system ops s.turns) c)
