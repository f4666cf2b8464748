-- ===== src/Kqueue/Deadline.antt =====
-- The timeout of `kevent` against its deadline.
use sleepy_penguin.Timespec.Left.{IsLeft, tssub-IsLeft}
use sleepy_penguin.Kqueue.Resume.{Rounds-sent, round-Resumed, Recomputed}
use sleepy_penguin.Kqueue.{kevent_round, KqPerThread, KqueueCalls, is_expired}
use sleepy_penguin.Timespec.{tssub, Timespec}
use sleepy_penguin.Timespec.Subtract.{below, above, IsNormal}
use sleepy_penguin.Base.{
  is_some, inr, some, inl, ◌⊎◌, none, Option, arith, neg_part, ap, pos_part, ◌≤◌, ◌+◌, false, ◌≡◌,
}
use sleepy_penguin.Ruby.{Vm}
use sleepy_penguin.Proc.{done, St}
use sleepy_penguin.Proc.Loop.{again, here, next, Rounds}

not_expired :
    (now at : Timespec)
    → IsNormal at
    → IsNormal now
    → is_expired now at ≡ false
    → above now + below at ≤ above at + below now
unfolding is_expired
not_expired now at (n, e, x) (m, f, y) h =
    let p : pos_part at.tv_nsec ≡ n = ap pos_part e in
    let q : neg_part at.tv_nsec ≡ 0 = ap neg_part e in
    let r : pos_part now.tv_nsec ≡ m = ap pos_part f in
    let s : neg_part now.tv_nsec ≡ 0 = ap neg_part f in ground arith

module _ {W : Type 0} (vm : Vm W) (sys : KqueueCalls W) (expire_at : Timespec) where
  -- No timeout, or a wait that ends at the deadline from a reading of the clock.
  abbrev pub IsOnTime : Option Timespec → Type 0
  IsOnTime ts =
      (ts ≡ none)
      ⊎ ((left : Timespec) × (w : W) × (ts ≡ some left)
          × IsLeft (sys.clock_gettime w).0 expire_at left)

  Recomputed-IsOnTime :
      (ts : Option Timespec)
      → IsNormal expire_at
      → ((w : W) → IsNormal (sys.clock_gettime w).0)
      → Recomputed vm sys expire_at ts
      → IsOnTime ts
  Recomputed-IsOnTime ts n clock_ok (inl e) = inl e
  Recomputed-IsOnTime ts n clock_ok (inr (w, f, e)) =
      let now : Timespec = (sys.clock_gettime w).0 in
      inr (
        tssub expire_at now,
        w,
        e,
        tssub-IsLeft expire_at now n (clock_ok w) (not_expired now expire_at n (clock_ok w) f),
      )

  Rounds-OnTime :
      (x d : KqPerThread) (u t : St W)
      → IsNormal expire_at
      → ((w : W) → IsNormal (sys.clock_gettime w).0)
      → IsOnTime x.ts
      → Rounds (kevent_round vm sys expire_at) x u d t
      → IsOnTime d.ts
  Rounds-OnTime x d u t n clock_ok h here = h
  Rounds-OnTime x d u t n clock_ok h (next {d = y} {t = v} q r) =
      let (_, _, _, _, z) = round-Resumed vm sys expire_at x y u v q in
      Rounds-OnTime y d v t n clock_ok (Recomputed-IsOnTime y.ts n clock_ok z) r

  -- After a round of the loop of `kevent` that goes round again, and any more of them, there is a
  -- timeout just where there was one at the beginning, and it is a wait, not negative and with
  -- nanoseconds in their range, that ends at the deadline exactly, from a reading of the clock. The
  -- nanoseconds of the deadline and of every reading of the clock are in their range.
  pub Rounds-IsOnTime :
      (c x d : KqPerThread) (s u t : St W)
      → IsNormal expire_at
      → ((w : W) → IsNormal (sys.clock_gettime w).0)
      → kevent_round vm sys expire_at c s ≡ done (again x) u
      → Rounds (kevent_round vm sys expire_at) x u d t
      → (is_some d.ts ≡ is_some c.ts) × IsOnTime d.ts
  Rounds-IsOnTime c x d s u t n clock_ok q r =
      let (_, _, _, _, z) = round-Resumed vm sys expire_at c x s u q in
      (
        (Rounds-sent vm sys expire_at c x d s u t q r).2,
        Rounds-OnTime x d u t n clock_ok (Recomputed-IsOnTime x.ts n clock_ok z) r,
      )
