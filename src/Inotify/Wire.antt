-- ===== src/Inotify/Wire.antt =====
-- The buffer that read(2) fills: the `struct inotify_event`s of inotify(7), one behind another.
-- `event_len` and `event_new` of ext/sleepy_penguin/inotify.c, and the loop of `do_take` over them.
pub mod Encode
use sleepy_penguin.Base.{
  some, none, zero, ◌==◌, if◌then◌else◌, suc, ◌*◌, ◌∷◌, length, [], int_of_u64, ◌+◌, drop, Option,
  ℕ, List, ℤ,
}

-- `SleepyPenguin::Inotify::Event`; no name is nil.
pub record Event : Type 0 where
  pub wd : ℤ
  pub mask : ℕ
  pub cookie : ℕ
  pub name : Option (List ℕ)

-- A `uint32_t` at the front of the bytes, lowest byte first.
unfoldable pub get_u32 : List ℕ → ℕ
get_u32 (a ∷ b ∷ c ∷ d ∷ rest) = a + 256 * b + 65536 * c + 16777216 * d
get_u32 _ = 0

abbrev pub sizeof_inotify_event : ℕ
sizeof_inotify_event = 16

abbrev pub field_len : List ℕ → ℕ
field_len e = get_u32 (drop 12 e)

unfoldable pub event_len : List ℕ → ℕ
event_len e = sizeof_inotify_event + field_len e

-- `rb_str_new2` stops at the first zero byte.
unfoldable pub c_string : List ℕ → List ℕ
c_string [] = []
c_string (b ∷ bs) = if b == 0 then [] else b ∷ c_string bs

unfoldable pub event_new : List ℕ → Event
unfolding get_u32 c_string
event_new e = record {
  wd = int_of_u64 (get_u32 e);
  mask = get_u32 (drop 4 e);
  cookie = get_u32 (drop 8 e);
  name = if field_len e == 0 then none else some (c_string (drop 16 e));
}

-- The `for` loop from `e` to `end`, on fuel: each event takes at least sixteen bytes.
unfoldable pub decode_from : ℕ → List ℕ → List Event
unfolding event_new event_len
decode_from zero bs = []
decode_from (suc n) [] = []
decode_from (suc n) (b ∷ bs) =
    event_new (b ∷ bs) ∷ decode_from n (drop (event_len (b ∷ bs)) (b ∷ bs))

unfoldable pub decode_events : List ℕ → List Event
unfolding decode_from
decode_events bs = decode_from (length bs) bs
