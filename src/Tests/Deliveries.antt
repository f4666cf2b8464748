-- ===== src/Tests/Deliveries.antt =====
-- The theorems on the order of inotify events, at a read that brings two.
use sleepy_penguin.Inotify.{InotifyCalls}
use sleepy_penguin.Inotify.Each.{each, yield_each, each-delivers}
use sleepy_penguin.Inotify.Wire.Encode.{event_of, encode, AllFit, Report}
use sleepy_penguin.Base.{refl, ◌+◌, ◌≡◌, length, arith, suc, pos, [], ◌∷◌, none, some, List, ℕ}
use sleepy_penguin.Proc.{and_then, done, gives, St, Run}
use sleepy_penguin.Tls.{take_buf, rb_sp_gettlsbuf}
use sleepy_penguin.Util.{rb_sp_fileno}
use sleepy_penguin.Ruby.{file, object, Value}
use sleepy_penguin.Tests.World.{rested, vm}

abbrev first : Report
first = record { wd = 1; mask = 256; cookie = 0; name = some (97 ∷ 98 ∷ [], 1) }

abbrev second : Report
second = record { wd = 2; mask = 1024; cookie = 0; name = none }

both-AllFit : AllFit (first ∷ second ∷ [])
both-AllFit = (
  record {
    wd = omega arith;
    mask = omega arith;
    cookie = omega arith;
    len = omega arith;
    name = (omega arith, (omega arith, tt));
  },
  (
    record {
      wd = omega arith;
      mask = omega arith;
      cookie = omega arith;
      len = omega arith;
      name = tt;
    },
    tt,
  ),
)

abbrev inotify_calls : InotifyCalls ℕ
inotify_calls = record {
  inotify_init1 = λ flags. gives (pos 7);
  inotify_add_watch = λ fd path mask. gives 1;
  inotify_rm_watch = λ fd wd. gives (pos 0);
  read = λ fd n. gives (encode (first ∷ second ∷ []));
  fionread = λ fd. gives (pos 0);
}

abbrev name_of : List ℕ → Value
name_of bs = object (length bs)

-- The state once the buffer is out.
abbrev state_of : Run ℕ (ℕ × ℕ) → St ℕ
state_of (done r s) = s
state_of _ = rested

abbrev with_buffer : St ℕ
with_buffer = state_of (rb_sp_gettlsbuf vm 64 128 rested)

got_buffer : rb_sp_gettlsbuf vm 64 128 rested ≡ done (5, 128) with_buffer
unfolding rb_sp_gettlsbuf take_buf
got_buffer = refl

each-delivers_example :
    each vm inotify_calls 64 1 name_of (suc (1 + 3)) (file 1) [] rested
    ≡ and_then
        (yield_each vm inotify_calls 64 1 name_of
          (event_of first ∷ event_of second ∷ [])
          with_buffer)
        (λ _. each vm inotify_calls 64 1 name_of 3 (file 1) [])
unfolding rb_sp_fileno rb_sp_gettlsbuf take_buf
each-delivers_example =
    each-delivers vm inotify_calls 64 0 (file 1) name_of first (second ∷ []) 3 (pos 7) 5 128 rested
      rested with_buffer 2 both-AllFit refl got_buffer refl
