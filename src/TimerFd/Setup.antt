-- ===== src/TimerFd/Setup.antt =====
-- `sleepy_penguin_init_timerfd` of ext/sleepy_penguin/timerfd.c.
use sleepy_penguin.Registry.{
  define_uint, define_method, under, define_singleton_method, define_class_under, define_module,
  Decl,
}
use sleepy_penguin.Base.{pos, ◌++◌, [], negsuc, ◌∷◌, List}

unfoldable pub sleepy_penguin_init_timerfd : List Decl
sleepy_penguin_init_timerfd =
    (define_module "SleepyPenguin"
      ∷ define_class_under "SleepyPenguin" "TimerFD" "IO"
      ∷ define_singleton_method "SleepyPenguin::TimerFD" "new" "s_new" (negsuc 0)
      ∷ define_uint "SleepyPenguin::TimerFD" "REALTIME" "CLOCK_REALTIME"
      ∷ define_uint "SleepyPenguin::TimerFD" "MONOTONIC" "CLOCK_MONOTONIC"
      ∷ define_uint "SleepyPenguin::TimerFD" "ABSTIME" "TFD_TIMER_ABSTIME"
      ∷ [])
    ++ ((under "TFD_TIMER_CANCEL_ON_SET"
          (define_uint "SleepyPenguin::TimerFD" "CANCEL_ON_SET" "TFD_TIMER_CANCEL_ON_SET" ∷ []))
        ++ ((under "TFD_NONBLOCK"
              (define_uint "SleepyPenguin::TimerFD" "NONBLOCK" "TFD_NONBLOCK" ∷ []))
            ++ ((under "TFD_CLOEXEC"
                  (define_uint "SleepyPenguin::TimerFD" "CLOEXEC" "TFD_CLOEXEC" ∷ []))
                ++ ((define_method "SleepyPenguin::TimerFD" "settime" "settime" (pos 3)
                    ∷ define_method "SleepyPenguin::TimerFD" "gettime" "gettime" (pos 0)
                    ∷ define_method "SleepyPenguin::TimerFD" "expirations" "expirations" (negsuc 0)
                    ∷ [])))))
