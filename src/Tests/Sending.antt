-- ===== src/Tests/Sending.antt =====
-- The emulation of sendfile(2) at a socket that takes a byte at a time.
use sleepy_penguin.Sendfile.{linux_sendfile, lsf, SendfileCalls}
use sleepy_penguin.Sendfile.Emulated.{Copying}
use sleepy_penguin.Base.{
  false, true, ◌<◌, append-nil, take, refl, sym, length, pos_part, ◌≤◌, drop, ◌++◌, [], none, ◌≡◌,
  ◌∷◌, arith, ℕ, pos, List,
}
use sleepy_penguin.Proc.{fails, yields, gives, Sys, St}
use sleepy_penguin.Proc.Sat.{Sat}
use sleepy_penguin.Util.{rb_sp_fileno}
use sleepy_penguin.Sendfile.Whole.{lsf_emulated, Arguments, IsAnswer}
use sleepy_penguin.Tests.World.{vm_of}
use sleepy_penguin.Ruby.{fixnum}

abbrev contents : List ℕ
contents = 104 ∷ 101 ∷ 108 ∷ 108 ∷ 111 ∷ []

abbrev put_byte : List ℕ → Sys (List ℕ) ℕ
put_byte [] w = gives 0 w
put_byte (b ∷ bs) w = gives 1 (w ++ b ∷ [])

-- The world is what the socket has taken.
abbrev sending : SendfileCalls (List ℕ)
sending = record {
  sendfile = λ out in' off n. gives (n, off);
  bsd_sendfile = λ f s o n w. (none, n, w);
  lseek_cur = λ fd o. gives o;
  pread = λ fd n o. gives (take n (drop (pos_part o) contents));
  read = λ fd n. gives [];
  write = λ fd bs. put_byte bs;
  xfree = λ e w. yields tt e w;
}

put_byte_lem :
    (bs w : List ℕ) (n : ℕ) (w' : List ℕ)
    → put_byte bs w ≡ gives n w'
    → (n ≤ length bs) × (w' ≡ w ++ take n bs)
put_byte_lem [] w n w' e =
    let p : n ≡ 0 = cc in let q : w' ≡ w = cc in rw (p, q) (omega arith, sym (append-nil w))
put_byte_lem (b ∷ bs) w n w' e =
    let p : n ≡ 1 = cc in let q : w' ≡ w ++ b ∷ [] = cc in rw (p, q) (omega arith, refl)

put_byte_works : (bs w : List ℕ) (x : ℕ) (w' : List ℕ) → put_byte bs w ≡ fails x w' → w' ≡ w
put_byte_works [] w x w' e = cc
put_byte_works (b ∷ bs) w x w' e = cc

copying : Copying (λ w. 0) (λ w. w) contents (pos 4) (pos 5) sending
copying = record {
  was_read = λ n o w bs w' e. (cc, omega arith, (n, omega arith, cc));
  read_failed = λ n o w x w' e. cc;
  wrote = λ bs w n w' e. let (le, taken) = put_byte_lem bs w n w' e in (le, omega arith, taken);
  write_failed = λ bs w x w' e. (put_byte_works bs w x w' e, omega arith);
  freed = λ e w e' w' q. (cc, omega arith);
  returns = λ e w x e' w' q. cc;
}

abbrev empty_socket : St (List ℕ)
empty_socket = record { errno = 0; heap = λ p. none; slot = none; world = [] }

-- Three bytes are asked for, from the second on, and one is taken.
sending_args :
    Arguments
      (λ w. w)
      (λ s. 0 < 1)
      (vm_of (List ℕ))
      (fixnum (pos 4))
      (fixnum (pos 5))
      (fixnum (pos 1))
      (fixnum (pos 3))
      (pos 4)
      (pos 5)
      1
      3
unfolding rb_sp_fileno
sending_args = record {
  not_nil = refl;
  dst_open = λ s. refl;
  src_open = λ s. refl;
  offset = λ s. refl;
  size_of = λ s. refl;
  gc = λ s r. (r, refl);
}

lsf_emulated_example :
    Sat ⊥
      (IsAnswer (λ w. w) contents 1 3 empty_socket)
      (λ _ t. t.world ≡ [])
      (lsf
        (vm_of (List ℕ))
        (linux_sendfile sending true false false 1)
        (fixnum (pos 4))
        (fixnum (pos 5))
        (fixnum (pos 1))
        (fixnum (pos 3))
        empty_socket)
lsf_emulated_example =
    lsf_emulated (λ w. 0) (λ w. w) contents (pos 4) (pos 5) sending copying (vm_of (List ℕ))
      (fixnum (pos 4)) (fixnum (pos 5)) (fixnum (pos 1)) (fixnum (pos 3)) 1 3 1 sending_args true
      false false empty_socket refl refl (omega arith)
