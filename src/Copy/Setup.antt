-- ===== src/Copy/Setup.antt =====
-- `sleepy_penguin_init_splice` of ext/sleepy_penguin/splice.c and `sleepy_penguin_init_cfr` of cfr.c.
use sleepy_penguin.Registry.{define_uint, define_singleton_method, define_module, Decl}
use sleepy_penguin.Base.{[], pos, ◌∷◌, List}

unfoldable pub sleepy_penguin_init_splice : List Decl
sleepy_penguin_init_splice =
    (define_module "SleepyPenguin"
      ∷ define_singleton_method "SleepyPenguin" "__splice" "my_splice" (pos 6)
      ∷ define_singleton_method "SleepyPenguin" "__tee" "my_tee" (pos 4)
      ∷ define_uint "SleepyPenguin" "F_MOVE" "SPLICE_F_MOVE"
      ∷ define_uint "SleepyPenguin" "F_NONBLOCK" "SPLICE_F_NONBLOCK"
      ∷ define_uint "SleepyPenguin" "F_MORE" "SPLICE_F_MORE"
      ∷ define_uint "SleepyPenguin" "F_GETPIPE_SZ" "F_GETPIPE_SZ"
      ∷ define_uint "SleepyPenguin" "F_SETPIPE_SZ" "F_SETPIPE_SZ"
      ∷ [])

unfoldable pub sleepy_penguin_init_cfr : List Decl
sleepy_penguin_init_cfr =
    (define_module "SleepyPenguin"
      ∷ define_singleton_method "SleepyPenguin" "__cfr" "rb_sp_cfr" (pos 6)
      ∷ [])
