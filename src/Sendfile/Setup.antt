-- ===== src/Sendfile/Setup.antt =====
-- `sleepy_penguin_init_sendfile` of ext/sleepy_penguin/sendfile.c.
use sleepy_penguin.Registry.{define_singleton_method, define_module, Decl}
use sleepy_penguin.Base.{[], pos, ◌∷◌, List}

unfoldable pub sleepy_penguin_init_sendfile : List Decl
sleepy_penguin_init_sendfile =
    (define_module "SleepyPenguin"
      ∷ define_singleton_method "SleepyPenguin" "__lsf" "lsf" (pos 4)
      ∷ [])
