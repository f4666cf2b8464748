-- ===== src/Tests/Moved.antt =====
-- Copies and a timer that are interrupted twice before they give something.
use sleepy_penguin.TimerFd.Total.{Still as TimerStill}
use sleepy_penguin.TimerFd.Total.{expirations_total, Reported, HandsOut}
use sleepy_penguin.Base.{pos, zero, suc, ◌<◌, ap, ◌+◌, arith, none, ◌≡◌, ◌-◌, ℕ}
use sleepy_penguin.Copy.{rb_sp_cfr, my_tee, my_splice, CopyCalls, Copied}
use sleepy_penguin.Copy.Accounts.{Still, Accounts, Moving}
use sleepy_penguin.Proc.{fails, gives, Sys, St}
use sleepy_penguin.Proc.Sat.{Sat}
use sleepy_penguin.Proc.Patience.{IsSpent}
use sleepy_penguin.Tests.World.{vm_quiet, double, vm_calm, rested, vm}
use sleepy_penguin.Base.Errno.{eintr}
use sleepy_penguin.Ruby.{fixnum, qnil, file}
use sleepy_penguin.Copy.Total.{Copies, cfr_total, tee_total, splice_total}
use sleepy_penguin.TimerFd.{expirations, TimerFdCalls}

-- The world is 0 and 1 before the interruptions, and from 2 on has moved what is above 2.
abbrev late : {A : Type 0} → A → ℕ → Sys ℕ A
late a n zero = fails eintr 1
late a n (suc zero) = fails eintr 2
late a n (suc (suc w)) = gives a (suc (suc (w + n)))

abbrev to_come : ℕ → ℕ
to_come w = 2 - w

abbrev moved_by : ℕ → ℕ
moved_by w = w - 2

late-moves :
    {A : Type 0} (a : A) (n w : ℕ) (b : A) (w' : ℕ)
    → late a n w ≡ gives b w'
    → (b ≡ a) × (moved_by w' ≡ moved_by w + n)
late-moves a n zero b w' h = absurd (ground arith)
late-moves a n (suc zero) b w' h = absurd (ground arith)
late-moves a n (suc (suc w)) b w' h =
    let after : w' ≡ suc (suc (w + n)) = cc in (cc, omega (arith, after))

late-fails :
    {A : Type 0} (a : A) (n w e w' : ℕ)
    → late a n w ≡ fails e w'
    → (moved_by w' ≡ moved_by w) × (to_come w' < to_come w)
late-fails a n zero e w' h = let after : w' ≡ 1 = cc in (omega (arith, after), omega (arith, after))
late-fails a n (suc zero) e w' h =
    let after : w' ≡ 2 = cc in (omega (arith, after), omega (arith, after))
late-fails a n (suc (suc w)) e w' h = absurd (ground arith)

late-IsSpent : {A : Type 0} (a : A) (n : ℕ) → IsSpent to_come (late a n)
late-IsSpent a n w e w' h = (late-fails a n w e w' h).1

abbrev nine_bytes : Copied
nine_bytes = record { bytes = 9; off_in = none; off_out = none }

abbrev late_calls : CopyCalls ℕ
late_calls = record {
  splice = λ a. late nine_bytes 9;
  tee = λ i o n f. late 4 4;
  copy_file_range = λ a. late nine_bytes 9;
}

late-Moving : Moving moved_by late_calls
late-Moving = record {
  spliced = λ a w c w' h.
      let (same, after) = late-moves nine_bytes 9 w c w' h in
      omega (arith, after, ap (λ (x : Copied). x.bytes) same);
  splice_failed = λ a w e w' h. (late-fails nine_bytes 9 w e w' h).0;
  teed =
      λ i o n f w b w' h. let (same, after) = late-moves 4 4 w b w' h in omega (arith, after, same);
  tee_failed = λ i o n f w e w' h. (late-fails 4 4 w e w' h).0;
  copied = λ a w c w' h.
      let (same, after) = late-moves nine_bytes 9 w c w' h in
      omega (arith, after, ap (λ (x : Copied). x.bytes) same);
  copy_failed = λ a w e w' h. (late-fails nine_bytes 9 w e w' h).0;
}

abbrev before : St ℕ
before = record rested { world = 0 }

splice_total_example :
    Sat ⊥
      (Accounts moved_by before)
      (λ _ t. Still moved_by before t)
      (my_splice vm late_calls 3
        (file 1)
        qnil
        (file 2)
        qnil
        (fixnum (pos 9))
        (fixnum (pos 0))
        before)
splice_total_example =
    splice_total moved_by vm (vm_quiet moved_by) late_calls late-Moving (file 1) (file 2) to_come
      (vm_calm to_come) 3 qnil qnil (fixnum (pos 9)) (fixnum (pos 0)) before
      (λ a. late-IsSpent nine_bytes 9) (omega arith)

tee_total_example :
    Sat ⊥
      (Accounts moved_by before)
      (λ _ t. Still moved_by before t)
      (my_tee vm late_calls 3 (file 1) (file 2) (fixnum (pos 9)) (fixnum (pos 0)) before)
tee_total_example =
    tee_total moved_by vm (vm_quiet moved_by) late_calls late-Moving (file 1) (file 2) to_come
      (vm_calm to_come) 3 (fixnum (pos 9)) (fixnum (pos 0)) before (λ i o n f. late-IsSpent 4 4)
      (omega arith)

cfr_total_example :
    Sat ⊥
      (Copies moved_by vm
        (vm_quiet moved_by)
        late_calls
        late-Moving
        (file 1)
        (file 2)
        to_come
        (vm_calm to_come)
        before)
      (λ _ t. Still moved_by before t)
      (rb_sp_cfr vm late_calls 3
        (file 1)
        qnil
        (file 2)
        qnil
        (fixnum (pos 9))
        (fixnum (pos 0))
        before)
cfr_total_example =
    cfr_total moved_by vm (vm_quiet moved_by) late_calls late-Moving (file 1) (file 2) to_come
      (vm_calm to_come) 3 qnil qnil (fixnum (pos 9)) (fixnum (pos 0)) before
      (λ a. late-IsSpent nine_bytes 9) (omega arith)

-- A timer that has expired three times.
abbrev late_timer : TimerFdCalls ℕ
late_timer = record {
  timerfd_create = λ clock flags. gives (pos 7);
  timerfd_settime = λ fd flags its. gives its;
  timerfd_gettime = λ fd. gives (record {
    it_interval = record { tv_sec = pos 0; tv_nsec = pos 0 };
    it_value = record { tv_sec = pos 0; tv_nsec = pos 0 };
  });
  read = λ fd. late 3 3;
}

late_expiries : HandsOut moved_by late_timer
late_expiries = record {
  was_read =
      λ fd w n w' h. let (same, after) = late-moves 3 3 w n w' h in omega (arith, after, same);
  read_failed = λ fd w e w' h. (late-fails 3 3 w e w' h).0;
}

expirations_total_example :
    Sat ⊥
      (Reported moved_by qnil before)
      (λ _ t. TimerStill moved_by qnil before t)
      (expirations double vm late_timer 3 (file 1) qnil before)
expirations_total_example =
    expirations_total to_come moved_by double vm (vm_calm to_come) (vm_quiet moved_by) late_timer
      late_expiries (λ fd. late-IsSpent 3 3) 3 (file 1) qnil before (omega arith)
