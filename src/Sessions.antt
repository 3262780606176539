-- ===== src/Sessions.antt =====
-- Commands and workitems at work together: WdiDispatchCommand of wdihandlers.cpp and the five workitem
-- callbacks of device.cpp, over all five task queues.

pub mod Commands
pub mod Views
pub mod Noted
pub mod Offers
pub mod Admission
pub mod Runs
pub mod Accounts
pub mod Completion
pub mod Losses
use wificx_skeleton.Prelude.{ℕ, List, [], ◌∷◌}
use wificx_skeleton.Platform.System.{System}
use wificx_skeleton.Device.{Driver, ChipOps, WorkItem}
use wificx_skeleton.Handlers.{dispatch}
use wificx_skeleton.Handlers.Session.{Request}
use wificx_skeleton.WorkItems.Kinds.{work_item}

-- A session is a list of commands and of runs of the five workitems with some fuel.
pub data Turn : Type 0 where
  issue : Request → Turn
  run : WorkItem → ℕ → Turn

module _ (sys : System) (ops : ChipOps) where
  unfoldable pub turn : Turn → Driver → Driver
  unfolding work_item
  turn (issue r) d = dispatch sys ops r d
  turn (run work fuel) d = work_item sys ops work fuel d

  unfoldable pub session : List Turn → Driver → Driver
  unfolding turn
  session [] d = d
  session (t ∷ ts) d = session ts (turn t d)
