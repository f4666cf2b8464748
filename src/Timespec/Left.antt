-- ===== src/Timespec/Left.antt =====
-- The time that is left until another.
use sleepy_penguin.Timespec.Subtract.{tssub-difference, IsNormal, above, below}
use sleepy_penguin.Timespec.{tssub, Timespec}
use sleepy_penguin.Base.{refl, suc, arith, pos_part, negsuc, ap, neg_part, ℤ, ◌≤◌, pos, ◌≡◌, ◌+◌, ℕ}

-- A wait as kevent(2) takes it: not negative, the nanoseconds in their range.
abbrev pub IsWait : Timespec → Type 0
IsWait t = (sec : ℕ) × (t.tv_sec ≡ pos sec) × IsNormal t

-- From `now` the wait ends at `at`.
abbrev pub IsLeft : Timespec → Timespec → Timespec → Type 0
IsLeft now at t = IsWait t × (above t + above now + below at ≡ above at + below now)

sec_pos :
    (sec : ℤ) (t now at : Timespec)
    → t.tv_sec ≡ sec
    → IsNormal t
    → above t + above now + below at ≡ above at + below t + below now
    → above now + below at ≤ above at + below now
    → (n : ℕ) × (sec ≡ pos n)
sec_pos (pos n) t now at e _ d le = (n, refl)
sec_pos (negsuc n) t now at e (k, f, small) d le =
    let p : pos_part t.tv_sec ≡ 0 = ap pos_part e in
    let q : neg_part t.tv_sec ≡ suc n = ap neg_part e in
    let u : pos_part t.tv_nsec ≡ k = ap pos_part f in
    let v : neg_part t.tv_nsec ≡ 0 = ap neg_part f in absurd (omega arith)

-- Where the nanoseconds are in range and `at` is not before `now`, their difference is a wait.
pub tssub-IsLeft :
    (at now : Timespec)
    → IsNormal at
    → IsNormal now
    → above now + below at ≤ above at + below now
    → IsLeft now at (tssub at now)
tssub-IsLeft at now n m le =
    let t : Timespec = tssub at now in
    let (normal, d) = tssub-difference at now n m in
    let (sec, e) = sec_pos t.tv_sec t now at refl normal d le in
    let (k, f, small) = normal in
    let q : neg_part t.tv_sec ≡ 0 = ap neg_part e in
    let v : neg_part t.tv_nsec ≡ 0 = ap neg_part f in ((sec, e, normal), omega arith)
