-- ===== src/Inotify/Each.antt =====
-- `Inotify#each`, and the order in which it hands on what a read has brought.
use sleepy_penguin.Base.{
  arith, false, map, refl, ℤ, ◌∙◌, suc, none, ◌≡◌, some, [], pos, ◌∷◌, ◌+◌, length, Option, ℕ, List,
  ap,
}
use sleepy_penguin.Inotify.{InreadArgs, take_round, do_take, read_done, take, InotifyCalls}
use sleepy_penguin.Ruby.{nil, qnil, fixnum, item, structure, Value, Vm}
use sleepy_penguin.Inotify.Wire.{decode_from, decode_events, Event}
use sleepy_penguin.Proc.Loop.{finish, after_round, again, Step, loop}
use sleepy_penguin.Proc.{
  gives, throws, done, yields, Reply, and_then, ◌>>◌, ◌>>=◌, pure, call, St, Cmd,
}
use sleepy_penguin.Inotify.Wire.Encode.{decode_events-encode, encode, event_of, AllFit, Report}
use sleepy_penguin.Tls.{rb_sp_gettlsbuf, rb_sp_puttlsbuf}
use sleepy_penguin.Util.{rb_sp_fileno}

-- An `Event` as the Struct that a block is given; `name_of` makes the String of its bytes.
abbrev pub event_value : (List ℕ → Value) → Event → Value
event_value name_of e = structure (
    item (fixnum e.wd) (
      item (fixnum (pos e.mask)) (
        item (fixnum (pos e.cookie))
          (item (elim e.name [ none ↦ qnil | some bs ↦ name_of bs ]) nil))))

module _ {W : Type 0} (vm : Vm W) (sys : InotifyCalls W) (cache_line fuel : ℕ)
    (name_of : List ℕ → Value) where
  abbrev pub yield_taken : Option Event → Cmd W (Unit {0})
  yield_taken none = call (vm.rb_yield_values (qnil ∷ []))
  yield_taken (some e) = call (vm.rb_yield_values (event_value name_of e ∷ []))

  -- A round of the `while (1)`; what earlier reads have left is handed from round to round.
  unfoldable pub each_round : Value → List Event → Cmd W (Step (List Event) Value)
  unfolding take
  each_round self tmp = do
    (rv, tmp') ← take vm sys cache_line fuel self tmp qnil
    yield_taken rv
    pure (again tmp')

  unfoldable pub each : ℕ → Value → List Event → Cmd W Value
  each rounds self tmp = loop rounds (each_round self) tmp

  -- The block's calls for some events, in their order.
  abbrev pub yield_each : List Event → Cmd W (Unit {0})
  yield_each [] = pure tt
  yield_each (e ∷ es) = yield_taken (some e) >> yield_each es

  -- A round that has an event in hand, and what follows it.
  each-step :
      (e : Event) (tmp es : List Event) (m : ℕ) (self : Value) (s : St W) (k : Cmd W Value)
      → ((t : St W) → each m self tmp t ≡ and_then (yield_each es t) (λ _. k))
      → and_then (yield_taken (some e) s) (λ _. each m self tmp)
        ≡ and_then (yield_each (e ∷ es) s) (λ _. k)
  each-step e tmp es m self s k next =
      yielded (vm.rb_yield_values (event_value name_of e ∷ []) s.errno s.world) refl
    where
      yielded :
          (r : Reply W (Unit {0}))
          → vm.rb_yield_values (event_value name_of e ∷ []) s.errno s.world ≡ r
          → and_then (yield_taken (some e) s) (λ _. each m self tmp)
            ≡ and_then (yield_each (e ∷ es) s) (λ _. k)
      yielded (yields a x w) q = rw q (next (record s { errno = x; world = w }))
      yielded (throws x y w) q = rw q refl

  -- A round of `each` is its take, and the block's call for it.
  each_round_lem :
      (m : ℕ) (self : Value) (tmp tmp' : List Event) (e : Event) (s t : St W)
      → take vm sys cache_line fuel self tmp qnil s ≡ done (some e, tmp') t
      → each (suc m) self tmp s ≡ and_then (yield_taken (some e) t) (λ _. each m self tmp')
  unfolding each each_round loop
  each_round_lem m self tmp tmp' e s t q =
      rw q (yielded (vm.rb_yield_values (event_value name_of e ∷ []) t.errno t.world) refl)
    where
      yielded :
          (r : Reply W (Unit {0}))
          → vm.rb_yield_values (event_value name_of e ∷ []) t.errno t.world ≡ r
          → after_round
              (λ c. each m self c)
              (and_then (yield_taken (some e) t) (λ _. pure (again tmp')))
            ≡ and_then (yield_taken (some e) t) (λ _. each m self tmp')
      yielded (yields a x w) q = rw q refl
      yielded (throws x y w) q = rw q refl

  zero_add : (n : ℕ) → 0 + n ≡ n
  zero_add n = omega arith

  rounds_add : (e : Event) (es : List Event) (n : ℕ) → length (e ∷ es) + n ≡ suc (length es + n)
  rounds_add e es n = omega arith

  -- `each` on events that an earlier read has left hands all of them to the block, in their order
  -- and without a read, and goes on as with none left; an exception of the block ends it.
  pub each-queue :
      (es : List Event) (n : ℕ) (self : Value) (s : St W)
      → each (length es + n) self es s ≡ and_then (yield_each es s) (λ _. each n self [])
  unfolding take
  each-queue [] n self s = ap (λ m. each m self [] s) (zero_add n)
  each-queue (e ∷ es) n self s =
      ap (λ m. each m self (e ∷ es) s) (rounds_add e es n)
      ∙ each_round_lem (length es + n) self (e ∷ es) es e s s refl
      ∙ each-step e es es (length es + n) self s (each n self []) (each-queue es n self)

module _ {W : Type 0} (vm : Vm W) (sys : InotifyCalls W) (cache_line fuel : ℕ) (self : Value) where
  decode_nil : decode_events [] ≡ []
  unfolding decode_events decode_from
  decode_nil = refl

  read_done-encode :
      (r : Report) (rs : List Report) (args : InreadArgs) (bytes : List ℕ) (s : St W)
      → decode_events bytes ≡ map event_of (r ∷ rs)
      → read_done vm sys cache_line self false args (some bytes) s
        ≡ done (finish (some (event_of r), map event_of rs)) s
  unfolding read_done
  read_done-encode r rs args [] s e = cc (e, decode_nil)
  read_done-encode r rs args (b ∷ bs) s e = rw e refl

  -- A `take` with nothing left of earlier reads, whose read brings some events, returns the first
  -- of them and leaves the others for later calls, in their order. The descriptor is open, the
  -- buffer is there, the first read succeeds, and the kernel writes what inotify(7) says.
  pub take-first :
      (r : Report) (rs : List Report) (fd : ℤ) (buf size : ℕ) (s s1 s2 : St W) (w : W)
      → AllFit (r ∷ rs)
      → rb_sp_fileno vm self s ≡ done fd s1
      → rb_sp_gettlsbuf vm cache_line 128 s1 ≡ done (buf, size) s2
      → sys.read fd size s2.world ≡ gives (encode (r ∷ rs)) w
      → take vm sys cache_line (suc fuel) self [] qnil s
        ≡ done (some (event_of r), map event_of rs) (record s2 { world = w })
  unfolding take do_take take_round loop rb_sp_puttlsbuf
  take-first r rs fd buf size s s1 s2 w fit p q e = rw p (
      rw q (
        rw e (
          rw
            (read_done-encode r rs (record { fd = fd; size = size; buf = buf }) (encode (r ∷ rs))
              (record s2 { world = w }) (decode_events-encode (r ∷ rs) fit))
            refl)))

  -- `each`, with nothing left of earlier reads, hands all the events of a read to the block, in the
  -- order in which the kernel has written them, before it reads again. The descriptor is open, the
  -- buffer is there, the first read succeeds, and the kernel writes what inotify(7) says; an
  -- exception of the block ends it.
  pub each-delivers :
      (name_of : List ℕ → Value) (r : Report) (rs : List Report) (n : ℕ) (fd : ℤ) (buf size : ℕ)
      (s s1 s2 : St W) (w : W)
      → AllFit (r ∷ rs)
      → rb_sp_fileno vm self s ≡ done fd s1
      → rb_sp_gettlsbuf vm cache_line 128 s1 ≡ done (buf, size) s2
      → sys.read fd size s2.world ≡ gives (encode (r ∷ rs)) w
      → each vm sys cache_line (suc fuel) name_of (suc (length (map event_of rs) + n)) self [] s
        ≡ and_then
            (yield_each vm sys cache_line
              (suc fuel)
              name_of
              (map event_of (r ∷ rs))
              (record s2 { world = w }))
            (λ _. each vm sys cache_line (suc fuel) name_of n self [])
  each-delivers name_of r rs n fd buf size s s1 s2 w fit p q e =
      each_round_lem vm sys cache_line (suc fuel) name_of (length (map event_of rs) + n) self []
        (map event_of rs) (event_of r) s (record s2 { world = w })
        (take-first r rs fd buf size s s1 s2 w fit p q e)
      ∙ each-step vm sys cache_line (suc fuel) name_of (event_of r) (map event_of rs)
          (map event_of rs) (length (map event_of rs) + n) self (record s2 { world = w })
          (each vm sys cache_line (suc fuel) name_of n self [])
          (each-queue vm sys cache_line (suc fuel) name_of (map event_of rs) n self)
