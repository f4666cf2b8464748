-- ===== src/EventFd/Setup.antt =====
-- `sleepy_penguin_init_eventfd` of ext/sleepy_penguin/eventfd.c.
use sleepy_penguin.Registry.{
  define_int, define_method, under, define_ull, define_singleton_method, define_class_under,
  define_module, Decl,
}
use sleepy_penguin.Base.{◌++◌, [], negsuc, ◌∷◌, List}

unfoldable pub sleepy_penguin_init_eventfd : List Decl
sleepy_penguin_init_eventfd =
    (define_module "SleepyPenguin"
      ∷ define_class_under "SleepyPenguin" "EventFD" "IO"
      ∷ define_singleton_method "SleepyPenguin::EventFD" "new" "s_new" (negsuc 0)
      ∷ define_ull "SleepyPenguin::EventFD" "MAX" 0xfffffffffffffffe
      ∷ [])
    ++ ((under "EFD_NONBLOCK" (define_int "SleepyPenguin::EventFD" "NONBLOCK" "EFD_NONBLOCK" ∷ []))
        ++ ((under "EFD_CLOEXEC" (define_int "SleepyPenguin::EventFD" "CLOEXEC" "EFD_CLOEXEC" ∷ []))
            ++ ((under "EFD_SEMAPHORE"
                  (define_int "SleepyPenguin::EventFD" "SEMAPHORE" "EFD_SEMAPHORE" ∷ []))
                ++ ((define_method "SleepyPenguin::EventFD" "value" "getvalue" (negsuc 0)
                    ∷ define_method "SleepyPenguin::EventFD" "incr" "incr" (negsuc 0)
                    ∷ [])))))
