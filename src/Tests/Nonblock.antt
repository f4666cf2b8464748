-- ===== src/Tests/Nonblock.antt =====
-- O_NONBLOCK on a descriptor that can be written to only.
use sleepy_penguin.Base.{
  ◌/◌, sym, refl, true, false, ap, arith, none, pos, bit_and, ◌≡◌, if◌then◌else◌, ℕ, Bool, ◌==◌,
}
use sleepy_penguin.Ruby.{Vm}
use sleepy_penguin.Util.Nonblock.{set_nonblock-Nonblocking, Nonblocking, HasFlags}
use sleepy_penguin.Proc.{fails, gives, Sys, St}
use sleepy_penguin.Proc.Sat.{Sat}
use sleepy_penguin.Tests.World.{vm_of}
use sleepy_penguin.Util.{rb_sp_set_nonblock}
use sleepy_penguin.Base.Bits.{zero-and, and_halve}

-- A descriptor that can be written to only, the world being whether it is nonblocking. F_SETFL sets
-- O_NONBLOCK and ignores the access mode.
abbrev flags_of : Bool → ℕ
flags_of w = if w then 2049 else 1

abbrev set_status : ℕ → Sys Bool (Unit {0})
set_status f w =
    if bit_and f 2048 == 2048
    then gives tt true
    else (if bit_and f 2048 == 0 then gives tt false else fails 22 w)

abbrev flags_vm : Vm Bool
flags_vm = record (vm_of Bool) {
  fcntl_getfl = λ fd w. gives (flags_of w) w;
  fcntl_setfl = λ fd f. set_status f;
}

status_set :
    (f : ℕ) (w w' : Bool)
    → set_status f w ≡ gives tt w'
    → bit_and (flags_of w') 2048 ≡ bit_and f 2048
status_set f w true h = ground arith
status_set f w false h = ground arith

-- The access mode of both worlds is the same.
mode_same : (others : ℕ) → bit_and 2048 others ≡ 0 → bit_and 2049 others ≡ bit_and 1 others
mode_same others h =
    omega (
      arith,
      and_halve 2049 others,
      and_halve 2048 others,
      and_halve 1 others,
      zero-and (others / 2),
    )

mode_kept :
    (w w' : Bool) (others : ℕ)
    → bit_and 2048 others ≡ 0
    → bit_and (flags_of w') others ≡ bit_and (flags_of w) others
mode_kept true true others h = refl
mode_kept true false others h = sym (mode_same others h)
mode_kept false true others h = mode_same others h
mode_kept false false others h = refl

flags_vm-HasFlags : HasFlags flags_of flags_vm (pos 7) 2048
flags_vm-HasFlags = record {
  nonblock = refl;
  got = λ w n w' e. let same : w' ≡ w = cc in (cc, ap flags_of same);
  set = λ f w w' e. status_set f w w' e;
  ignored = λ f w w' others e h. mode_kept w w' others h;
}

abbrev blocking : St Bool
blocking = record { errno = 0; heap = λ p. none; slot = none; world = false }

set_nonblock-Nonblocking_example :
    Sat ⊥
      (Nonblocking flags_of flags_vm (pos 7) 2048 flags_vm-HasFlags 1)
      (λ _ _. Unit {0})
      (rb_sp_set_nonblock flags_vm (pos 7) blocking)
set_nonblock-Nonblocking_example =
    set_nonblock-Nonblocking flags_of flags_vm (pos 7) 2048 flags_vm-HasFlags blocking
