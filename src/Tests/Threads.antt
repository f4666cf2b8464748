-- ===== src/Tests/Threads.antt =====
-- Two threads of a process at concrete calls.
use sleepy_penguin.Base.{refl, none, some, Option, ◌≡◌, ℕ}
use sleepy_penguin.Tls.Threads.{
  leave, grant, gets, begins, exits, started, moves, left_by, Inv, Reach, Process,
}
use sleepy_penguin.Tls.{
  take_buf, setspecific, set_buf_type, alloc_tlsbuf, free, key_destructor, update, replace_buf,
  rb_sp_gettlsbuf,
}
use sleepy_penguin.Tls.Threads.Safety.{Move-isolated, Reach-Inv}
use sleepy_penguin.Proc.{in_use, malloced, TlsBuf, St}
use sleepy_penguin.Tests.World.{vm-Allocates, vm}
use sleepy_penguin.Tls.Threads.{Move}

-- A heap in which the buffer at `p` has been made and taken by its thread.
abbrev with_buf : (ℕ → Option TlsBuf) → ℕ → ℕ → ℕ → Option TlsBuf
with_buf h p size =
    update (update h p (some (record { capa = size; buf_type = malloced }))) p
      (some (record { capa = size; buf_type = in_use }))

abbrev taken_by : ℕ → ℕ → Process ℕ → St ℕ
taken_by p size x = record {
  errno = 0;
  heap = with_buf x.heap p size;
  slot = some p;
  world = x.world;
}

-- Thread 0 gets a buffer of 100 bytes, then thread 1 one of 200.
abbrev first : Process ℕ
first = grant 0 1 (left_by 0 (taken_by 1 100 (started 2)) (started 2))

abbrev second : Process ℕ
second = grant 1 2 (left_by 1 (taken_by 2 200 first) first)

first-Reach : Reach vm 64 first
unfolding rb_sp_gettlsbuf replace_buf free alloc_tlsbuf setspecific take_buf set_buf_type
first-Reach = moves (begins 2) (gets 0 100 (1, 100) (taken_by 1 100 (started 2)) refl)

second-Move : Move vm 64 first second
unfolding rb_sp_gettlsbuf replace_buf free alloc_tlsbuf setspecific take_buf set_buf_type
second-Move = gets 1 200 (2, 200) (taken_by 2 200 first) refl

second-Reach : Reach vm 64 second
second-Reach = moves first-Reach second-Move

-- Thread 0 ends with its buffer out.
abbrev end_first : St ℕ
end_first = record { errno = 0; heap = update second.heap 1 none; slot = none; world = 2 }

abbrev third : Process ℕ
third = leave 0 (left_by 0 end_first second)

third-Move : Move vm 64 second third
unfolding key_destructor free
third-Move = exits 0 end_first refl

Reach-Inv_example : Inv third
Reach-Inv_example = Reach-Inv vm vm-Allocates 64 third (moves second-Reach third-Move)

Move-isolated_example : third.heap 2 ≡ second.heap 2
Move-isolated_example =
    Move-isolated vm vm-Allocates 64 second third 1 2 second-Reach third-Move refl refl
