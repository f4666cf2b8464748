-- ===== src/Epoll/Timeout.antt =====
-- The timeout of `epoll_wait` over the rounds that interrupted calls lead to.
use sleepy_penguin.Ruby.{Vm}
use sleepy_penguin.Epoll.{remaining, EpPerThread, EpollCalls}
use sleepy_penguin.Base.{
  ◌^◌, ◌%◌, ◌/◌, ◌<◌, ◌*◌, ◌+◌, pos_part, ◌⊎◌, ℤ, pos, false, true, is_negative, ◌≡◌, ℕ,
}
use sleepy_penguin.Proc.Sat.{Sat}

module _ {W : Type 0} (vm : Vm W) (sys : EpollCalls W) (expire_at : ℕ) where
  -- The milliseconds of the clock, as `now_ms` reads it from the world `w`.
  abbrev pub ms_at : W → ℕ
  ms_at w =
      let now = (sys.clock_gettime w).0 in
      (pos_part now.tv_sec * 1000 + (pos_part now.tv_nsec + 500000) / 1000000) % 2 ^ 64

  -- A wait that ends at `expire_at` by a reading of the clock, or none where that is past.
  abbrev pub IsUntil : ℤ → Type 0
  IsUntil timeout =
      (w : W) × (n : ℕ) × (timeout ≡ pos n)
      × ((ms_at w + n ≡ expire_at) ⊎ ((n ≡ 0) × (expire_at < ms_at w)))

  -- What a round that goes round again has kept.
  abbrev pub Kept : EpPerThread → EpPerThread → Type 0
  Kept c d =
      (d.io ≡ c.io)
      × (d.maxevents ≡ c.maxevents)
      × (is_negative c.timeout ≡ true → d.timeout ≡ c.timeout)
      × (is_negative c.timeout ≡ false
          → (w : W) × (d.timeout ≡ remaining vm sys expire_at (ms_at w)))

  -- Every reading of the clock is less than 2^31 ms before the deadline.
  abbrev pub IsNear : Type 0
  IsNear = (w : W) → expire_at < ms_at w + 2 ^ 31

  -- The timeout after rounds from `c`: for ever, or until the deadline.
  abbrev pub IsTimed : EpPerThread → EpPerThread → Type 0
  IsTimed c d =
      (is_negative c.timeout ≡ true → d.timeout ≡ c.timeout)
      × (is_negative c.timeout ≡ false → IsUntil d.timeout)
