-- ===== src/Epoll/Setup.antt =====
-- `sleepy_penguin_init_epoll` of ext/sleepy_penguin/epoll.c.
use sleepy_penguin.Registry.{
  define_uint, define_int, under, define_method, define_singleton_method, define_class_under,
  define_module, Decl,
}
use sleepy_penguin.Base.{◌++◌, [], negsuc, pos, ◌∷◌, List}

unfoldable pub sleepy_penguin_init_epoll : List Decl
sleepy_penguin_init_epoll =
    (define_module "SleepyPenguin"
      ∷ define_class_under "SleepyPenguin" "Epoll" "Object"
      ∷ define_class_under "SleepyPenguin::Epoll" "IO" "IO"
      ∷ define_singleton_method "SleepyPenguin::Epoll::IO" "new" "s_new" (pos 1)
      ∷ define_method "SleepyPenguin::Epoll::IO" "epoll_ctl" "epctl" (pos 3)
      ∷ define_method "SleepyPenguin::Epoll::IO" "epoll_wait" "epwait" (negsuc 0)
      ∷ define_method "SleepyPenguin::Epoll" "__event_flags" "event_flags" (pos 1)
      ∷ define_int "SleepyPenguin::Epoll" "CTL_ADD" "EPOLL_CTL_ADD"
      ∷ define_int "SleepyPenguin::Epoll" "CTL_DEL" "EPOLL_CTL_DEL"
      ∷ define_int "SleepyPenguin::Epoll" "CTL_MOD" "EPOLL_CTL_MOD"
      ∷ define_int "SleepyPenguin::Epoll" "CLOEXEC" "EPOLL_CLOEXEC"
      ∷ define_uint "SleepyPenguin::Epoll" "IN" "EPOLLIN"
      ∷ define_uint "SleepyPenguin::Epoll" "OUT" "EPOLLOUT"
      ∷ [])
    ++ ((under "EPOLLRDHUP" (define_uint "SleepyPenguin::Epoll" "RDHUP" "EPOLLRDHUP" ∷ []))
        ++ ((under "EPOLLWAKEUP" (define_uint "SleepyPenguin::Epoll" "WAKEUP" "EPOLLWAKEUP" ∷ []))
            ++ ((under "EPOLLEXCLUSIVE"
                  (define_uint "SleepyPenguin::Epoll" "EXCLUSIVE" "EPOLLEXCLUSIVE" ∷ []))
                ++ ((define_uint "SleepyPenguin::Epoll" "PRI" "EPOLLPRI"
                    ∷ define_uint "SleepyPenguin::Epoll" "ERR" "EPOLLERR"
                    ∷ define_uint "SleepyPenguin::Epoll" "HUP" "EPOLLHUP"
                    ∷ define_uint "SleepyPenguin::Epoll" "ET" "EPOLLET"
                    ∷ define_uint "SleepyPenguin::Epoll" "ONESHOT" "EPOLLONESHOT"
                    ∷ [])))))
