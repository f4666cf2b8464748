-- ===== src/Kqueue/Room.antt =====
-- The room that `kpt_get` makes for the events that go in and out.
use sleepy_penguin.Ruby.{Value, Vm}
use sleepy_penguin.Kqueue.{KqueueCalls}
use sleepy_penguin.Base.{[], ltb, if◌then◌else◌, List, ℕ}
use sleepy_penguin.Kqueue.Convert.{Kevent, changelist_prepare}
use sleepy_penguin.Proc.{pure, Cmd}
use sleepy_penguin.Proc.Sat.{Sat}

module _ {W : Type 0} (vm : Vm W) (sys : KqueueCalls W) where
  -- The conversion as `do_kevent` calls it.
  abbrev pub prepared : ℕ → Value → Cmd W (List Kevent)
  prepared n v = if ltb 0 n then changelist_prepare vm v else pure []
