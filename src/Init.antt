-- ===== src/Init.antt =====
-- `Init_sleepy_penguin_ext` of ext/sleepy_penguin/init.c, with `sp_once`.
pub mod Once
pub mod Table
use sleepy_penguin.Base.{
  map, ◌++◌, [], ◌∷◌, ◌&&◌, some, ◌||◌, none, is_some, ℤ, List, Bool, ℕ, String, Option,
}
use sleepy_penguin.Registry.{
  within, ifdef, declare_all, under, define_text, define_module, Build, Decl, Registry, Headers,
}
use sleepy_penguin.Proc.{rb_sys_fail, ◌>>◌, set_errno, pure, done, ◌>>=◌, Cmd}
use sleepy_penguin.Missing.{
  pipe_headers, cfr_headers, inotify_headers, clock_headers, epoll_headers,
}
use sleepy_penguin.Tls.{l1_cache_line_size_detect}
use sleepy_penguin.Kqueue.Setup.{sleepy_penguin_init_kqueue}
use sleepy_penguin.Epoll.Setup.{sleepy_penguin_init_epoll}
use sleepy_penguin.TimerFd.Setup.{sleepy_penguin_init_timerfd}
use sleepy_penguin.EventFd.Setup.{sleepy_penguin_init_eventfd}
use sleepy_penguin.Inotify.Setup.{sleepy_penguin_init_inotify}
use sleepy_penguin.Copy.Setup.{sleepy_penguin_init_cfr, sleepy_penguin_init_splice}
use sleepy_penguin.Sendfile.Setup.{sleepy_penguin_init_sendfile}

-- libpthread and libc, of which init.c uses these; each gives an error number where it fails.
pub record InitCalls (W : Type 0) : Type 0 where
  pub pthread_key_create : W → Option ℕ × W
  pub pthread_once : Cmd W (Unit {0}) → Cmd W (Option ℕ)
  pub sysconf : W → Option ℤ

-- `defined(HAVE_COPY_FILE_RANGE) || (defined(__linux__) && defined(__NR_copy_file_range))`
abbrev pub has_cfr : Headers → Bool
has_cfr h =
    is_some (h "HAVE_COPY_FILE_RANGE")
    || (is_some (h "__linux__") && is_some (cfr_headers h "__NR_copy_file_range"))

-- What is registered, in its order; `version` is the text of git_version.h.
unfoldable pub declarations : String → List Decl
unfolding sleepy_penguin_init_kqueue sleepy_penguin_init_epoll sleepy_penguin_init_timerfd
    sleepy_penguin_init_eventfd sleepy_penguin_init_inotify sleepy_penguin_init_splice
    sleepy_penguin_init_cfr sleepy_penguin_init_sendfile
declarations version =
    (define_module "SleepyPenguin"
      ∷ define_text "SleepyPenguin" "SLEEPY_PENGUIN_VERSION" version
      ∷ [])
    ++ (under "HAVE_SYS_EVENT_H" sleepy_penguin_init_kqueue
        ++ (under "HAVE_SYS_EPOLL_H"
              (map (within (λ h. epoll_headers (clock_headers h))) sleepy_penguin_init_epoll)
            ++ (under "HAVE_SYS_TIMERFD_H" sleepy_penguin_init_timerfd
                ++ (under "HAVE_SYS_EVENTFD_H" sleepy_penguin_init_eventfd
                    ++ (under "HAVE_SYS_INOTIFY_H"
                          (map (within inotify_headers) sleepy_penguin_init_inotify)
                        ++ (under "HAVE_SPLICE"
                              (map (within pipe_headers) sleepy_penguin_init_splice)
                            ++ (map (ifdef has_cfr) sleepy_penguin_init_cfr
                                ++ sleepy_penguin_init_sendfile)))))))

module _ {W : Type 0} (sys : InitCalls W) where
  abbrev pub key_create : Cmd W (Option ℕ)
  key_create s = let (err, w) = sys.pthread_key_create s.world in done err (record s { world = w })

  unfoldable pub sp_once : Cmd W (Unit {0})
  sp_once = do
    err ← key_create
    elim err [ none ↦ pure tt | some e ↦ set_errno e >> rb_sys_fail "pthread_key_create" ]

  -- The size of a cache line, and what is registered.
  unfoldable pub init_sleepy_penguin_ext : String → Headers → Registry → Cmd W (ℕ × Build Registry)
  unfolding sp_once
  init_sleepy_penguin_ext version h reg = do
    err ← sys.pthread_once sp_once
    elim err [
      | some e ↦ set_errno e >> rb_sys_fail "pthread_once"
      | none ↦ λ s.
          done
            (
              l1_cache_line_size_detect (sys.sysconf s.world),
              declare_all h (declarations version) reg,
            )
            s
    ]
