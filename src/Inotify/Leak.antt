-- ===== src/Inotify/Leak.antt =====
-- The thread-local buffers of `take`, which hands `rb_ensure` the pointer of before the call, NULL.
use sleepy_penguin.Ruby.{is_truthy, Value, Allocates, Vm}
use sleepy_penguin.Inotify.{take_round, Taken, take, do_take, InotifyCalls}
use sleepy_penguin.Base.{refl, ◌∙◌, none, ap, some, [], ◌≡◌, Bool, ℤ, ℕ}
use sleepy_penguin.Proc.{
  out_of_fuel, crash, raise, done, cleaned, ready, rb_ensure, TlsBuf, Run, Cmd, St,
}
use sleepy_penguin.Inotify.Resize.{IsOut}
use sleepy_penguin.Proc.Frame.{SameBufs, Frames}
use sleepy_penguin.Tls.{rb_sp_gettlsbuf, rb_sp_puttlsbuf}
use sleepy_penguin.Proc.Sat.{Sat-and_then, Sat-mono, Sat}
use sleepy_penguin.Tls.Inv.{Level, Got, IsValid}
use sleepy_penguin.Util.{when_nonblock, rb_sp_fileno}
use sleepy_penguin.Util.Frame.{when_nonblock-Frames, fileno-Frames}
use sleepy_penguin.Tls.Around.{same-Balanced}
use sleepy_penguin.Tls.Get.{gettlsbuf-Got}
use sleepy_penguin.Inotify.Rounds.{take_round-Holds, Holds, Held}
use sleepy_penguin.Proc.Loop.{loop_inv, loop}

module _ {W : Type 0} (vm : Vm W) (sys : InotifyCalls W) (fresh : Allocates vm)
    (cache_line : ℕ) where
  -- A buffer that was not out before is out.
  abbrev pub Leaks : St W → St W → Type 0
  Leaks s t =
      (q : ℕ) × IsOut vm sys fresh cache_line t q
      × ((b : TlsBuf) → s.heap q ≡ some b → b.buf_type ≡ ready)

  -- What is known where nothing is asked of an exception.
  Frames-Post :
      {A : Type 0} (m : Cmd W A) (s : St W)
      → Frames m
      → Sat (Unit {0}) (λ _ t. SameBufs s t) (λ _ _. Unit {0}) (m s)
  Frames-Post m s f =
      Sat-mono Unit Unit (λ _ t. SameBufs s t) (λ _ t. SameBufs s t) (λ _ t. SameBufs s t)
        (λ _ _. Unit) (m s) (f.run s) (λ l. l) (λ a t h. h) (λ e t h. tt)

  Leaks-same :
      {A : Type 0} (s t u : St W) (r : Run W A)
      → SameBufs s t
      → SameBufs t u
      → Sat (Unit {0}) (λ _ w. Leaks u w) (λ _ _. Unit {0}) r
      → Sat (Unit {0}) (λ _ w. Leaks s w) (λ _ _. Unit {0}) r
  Leaks-same s t u r m k h =
      Sat-mono Unit Unit (λ _ w. Leaks u w) (λ _ w. Leaks s w) (λ _ _. Unit) (λ _ _. Unit) r h
        (λ l. l) (λ a w (q, o, x). (q, o, λ b e. x b (ap (λ f. f q) (k.0 ∙ m.0) ∙ e))) (λ e w h. h)

  module _ (fuel : ℕ) (self : Value) where
    do_take-Leaks :
        (nonblock : Bool) (fd : ℤ) (size : ℕ) (s : St W)
        → IsValid s
        → Sat
            (Unit {0})
            (λ _ t. Leaks s t)
            (λ _ _. Unit {0})
            (do_take vm sys cache_line fuel self nonblock fd size s)
    unfolding do_take
    do_take-Leaks nonblock fd size s v =
        Sat-and_then Unit (Got s size) _ (λ _ _. Unit) (rb_sp_gettlsbuf vm cache_line size s) _
          (Sat-mono ⊥ Unit (Got s size) (Got s size) (λ _ t. Level s t) (λ _ _. Unit)
            (rb_sp_gettlsbuf vm cache_line size s) (gettlsbuf-Got vm fresh cache_line s size v)
            (λ l. tt) (λ r t g. g) (λ e t g. tt))
          (λ r t g.
            let (b, h, _, n) = g.granted in
            Sat-mono Unit Unit (λ _ u. Held vm sys fresh cache_line r.0 u) (λ _ u. Leaks s u)
              (λ _ _. Unit) (λ _ _. Unit)
              (loop fuel (take_round vm sys cache_line self nonblock)
                (record { fd = fd; size = r.1; buf = r.0 }) t)
              (loop_inv (take_round vm sys cache_line self nonblock)
                (Holds vm sys fresh cache_line r.0) (λ _ u. Held vm sys fresh cache_line r.0 u)
                (λ _ _. Unit) (take_round-Holds vm sys fresh cache_line self nonblock r.0) fuel _ t
                (refl, g.valid, (b, h, n)))
              (λ l. l) (λ x u o. (r.0, o, g.exclusive)) (λ e u o. o))

    ensured-Leaks :
        (nonblock : Bool) (fd : ℤ) (s : St W)
        → IsValid s
        → Sat
            (Unit {0})
            (λ _ t. Leaks s t)
            (λ _ _. Unit {0})
            (rb_ensure
              (do_take vm sys cache_line fuel self nonblock fd 128)
              (rb_sp_puttlsbuf none)
              s)
    unfolding rb_sp_puttlsbuf
    ensured-Leaks nonblock fd s v =
        go (do_take vm sys cache_line fuel self nonblock fd 128 s)
          (do_take-Leaks nonblock fd 128 s v)
      where
        go :
            (r : Run W Taken)
            → Sat (Unit {0}) (λ _ t. Leaks s t) (λ _ _. Unit {0}) r
            → Sat (Unit {0}) (λ _ t. Leaks s t) (λ _ _. Unit {0}) (cleaned r (rb_sp_puttlsbuf none))
        go (done a t) h = h
        go (raise e t) h = h
        go crash h = h
        go out_of_fuel h = h

    -- A `take` that finds no event of an earlier read and returns has left one more thread-local
    -- buffer out than there was: a live one, not at rest, that was not out before the call. The
    -- state before the call is valid, and malloc overlays no live buffer.
    pub take-Leaks :
        (nonblock : Value) (s : St W)
        → IsValid s
        → Sat
            (Unit {0})
            (λ _ t. Leaks s t)
            (λ _ _. Unit {0})
            (take vm sys cache_line fuel self [] nonblock s)
    unfolding take
    take-Leaks nonblock s v =
        Sat-and_then Unit (λ _ t. SameBufs s t) _ (λ _ _. Unit) (rb_sp_fileno vm self s) _
          (Frames-Post (rb_sp_fileno vm self) s (fileno-Frames vm self))
          (λ fd t m.
            Sat-and_then Unit (λ _ u. SameBufs t u) _ (λ _ _. Unit) (when_nonblock vm nonblock fd t)
              _ (Frames-Post (when_nonblock vm nonblock fd) t (when_nonblock-Frames vm nonblock fd))
              (λ _ u k. Leaks-same s t u _ m k (
                ensured-Leaks (is_truthy nonblock) fd u
                  (same-Balanced t u (same-Balanced s t v m).valid k).valid)))
