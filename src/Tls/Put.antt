-- ===== src/Tls/Put.antt =====
-- `rb_sp_puttlsbuf` on every branch.
use sleepy_penguin.Proc.{done, malloced, in_use, ready, TlsBufType, TlsBuf, St}
use sleepy_penguin.Base.{none, arith, refl, ◌≢◌, some, ◌≡◌, ℕ}
use sleepy_penguin.Tls.Inv.{own-IsValid, IsValid}
use sleepy_penguin.Tls.{rb_sp_puttlsbuf, update}
use sleepy_penguin.Proc.Sat.{Sat}

module _ {W : Type 0} (s : St W) (p : ℕ) (b : TlsBuf) (hp : s.heap p ≡ some b) where
  -- The state after the thread's own buffer has been put back.
  abbrev pub returned_buf : St W
  returned_buf = record s { heap = update s.heap p (some (record b { buf_type = ready })) }

  pub put_own :
      s.slot ≡ some p → b.buf_type ≡ in_use → rb_sp_puttlsbuf (some p) s ≡ done tt returned_buf
  unfolding rb_sp_puttlsbuf
  put_own sl k = ground arith

  pub put_malloced :
      b.buf_type ≡ malloced
      → rb_sp_puttlsbuf (some p) s ≡ done tt (record s { heap = update s.heap p none })
  unfolding rb_sp_puttlsbuf
  put_malloced k = ground arith

module _ {W : Type 0} where
  -- What a return of `p` leaves: that buffer is out no more, and all else is as it was.
  pub record Returned (s : St W) (p : ℕ) (t : St W) : Type 0 where
    pub valid : IsValid t
    pub gone : (b : TlsBuf) → t.heap p ≡ some b → b.buf_type ≡ ready
    pub others : (q : ℕ) → q ≢ p → t.heap q ≡ s.heap q
    pub world : t.world ≡ s.world
    pub errno : t.errno ≡ s.errno

  -- From a valid state, `rb_sp_puttlsbuf` of a live buffer that is not at rest does not crash or
  -- raise: the state is valid after it, that buffer is out no more, and all others, the world and
  -- `errno` are as they were.
  pub put-Returned :
      (s : St W) (p : ℕ) (b : TlsBuf) (k : TlsBufType)
      → IsValid s
      → s.heap p ≡ some b
      → b.buf_type ≡ k
      → k ≢ ready
      → Sat ⊥ (λ _ t. Returned s p t) (λ e t. ⊥) (rb_sp_puttlsbuf (some p) s)
  put-Returned s p b in_use v hp k n =
      let sl : s.slot ≡ some p = ground (arith, v.owned p b hp) in
      rw (put_own s p b hp sl k) (record {
        valid =
            own-IsValid s _ p (record b { buf_type = ready }) (λ e. cc) refl sl
              (λ q c m e. ground (arith, v.owned q c));
        gone = λ c e. ground arith;
        others = λ q m. ground arith;
        world = refl;
        errno = refl;
      })
  put-Returned s p b malloced v hp k n = rw (put_malloced s p b hp k) (record {
    valid = record {
      owned = λ q c e. ground (arith, v.owned q c);
      live = λ q e. let (c, h, m) = v.live q e in (c, ground arith, m);
    };
    gone = λ c e. ground arith;
    others = λ q m. ground arith;
    world = refl;
    errno = refl;
  })
  put-Returned s p b ready v hp k n = absurd (n refl)
