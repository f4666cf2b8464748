-- ===== src/Sendfile/Contract.antt =====
-- What sendfile(2) promises, of a file with some contents and of what a socket has taken.
use sleepy_penguin.Base.{none, ◌+◌, drop, take, ◌++◌, ◌≤◌, pos, some, ◌≡◌, ℤ, ℕ, List}
use sleepy_penguin.Proc.{St}
use sleepy_penguin.Sendfile.{Sender, Sent}
use sleepy_penguin.Proc.Sat.{Sat}

module _ {W : Type 0} (out : W → List ℕ) (contents : List ℕ) where
  -- On success the socket has taken the next bytes of the file, as many as are returned and no more
  -- than were asked for, and the offset is behind them; on a failure nothing has changed.
  abbrev pub IsSent : ℕ → ℕ → St W → Sent → St W → Type 0
  IsSent o count s (none, off) t = (out t.world ≡ out s.world) × (off ≡ some (pos o))
  IsSent o count s (some n, off) t =
      (n ≤ count)
      × (out t.world ≡ out s.world ++ take n (drop o contents))
      × (off ≡ some (pos (o + n)))

  -- A `linux_sendfile` that does so from every state that is `Ready`, and leaves it so.
  abbrev pub Serves : (St W → Type 0) → ℤ → ℤ → Sender W → Type 0
  Serves Ready sock file sender =
      (o count : ℕ) (s : St W)
      → Ready s
      → Sat ⊥ (λ r t. Ready t × IsSent o count s r t) (λ _ _. ⊥)
          (sender sock file (some (pos o)) count s)
