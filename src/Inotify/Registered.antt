-- ===== src/Inotify/Registered.antt =====
-- The names that `Event#events` tests for, and the constants of the class.
use sleepy_penguin.Inotify.Setup.{in_const, in_rows, sleepy_penguin_init_inotify}
use mathlib.Core.List.{Memᴰ}
use mathlib.Core.List.Memᴰ.{map as mem-map, tail, append_left, append_right}
use sleepy_penguin.Base.{
  [], refl, ◌-◌, ◌∙◌, ◌^◌, negsuc, ◌%◌, pos, arith, some, ap, ◌∷◌, none, map, ◌≡◌, true, is_some,
  ◌++◌, ℤ, ℕ, String, Option,
}
use sleepy_penguin.Registry.{
  under, define_int, macro_value, key_of, is_module, uint2num, Headers, fallback, Registry,
  declare_all, find, const_key, built, a_constant, binding, ifdef, within, define_uint, Decl,
}
use sleepy_penguin.Init.{has_cfr, declarations}
use sleepy_penguin.Init.Table.{registered}
use sleepy_penguin.Missing.{pipe_headers, clock_headers, epoll_headers, inotify_headers}
use sleepy_penguin.Inotify.Setup.{in2_rows, sleepy_penguin_init_inotify}
use sleepy_penguin.Ruby.{fixnum}
use sleepy_penguin.Kqueue.Setup.{sleepy_penguin_init_kqueue}
use sleepy_penguin.Epoll.Setup.{sleepy_penguin_init_epoll}
use sleepy_penguin.TimerFd.Setup.{sleepy_penguin_init_timerfd}
use sleepy_penguin.EventFd.Setup.{sleepy_penguin_init_eventfd}
use sleepy_penguin.Copy.Setup.{sleepy_penguin_init_cfr, sleepy_penguin_init_splice}
use sleepy_penguin.Sendfile.Setup.{sleepy_penguin_init_sendfile}

abbrev inotify : String
inotify = "SleepyPenguin::Inotify"

-- A macro that is defined keeps its value behind `#ifndef`.
fallback_defined :
    (h : Headers) (macro name : String) (other : Option ℤ) (v : ℤ)
    → h name ≡ some v
    → fallback macro other h name ≡ some v
unfolding fallback
fallback_defined h macro name other v e = ground arith

-- A row of the table, as init.c registers it.
abbrev pub row_decl : String → String → Decl
row_decl name macro =
    ifdef (λ h. is_some (h "HAVE_SYS_INOTIFY_H"))
      (within inotify_headers (define_uint inotify name macro))

inotify_headers_defined :
    (h : Headers) (name : String) (v : ℤ) → h name ≡ some v → inotify_headers h name ≡ some v
unfolding inotify_headers
inotify_headers_defined h name v e =
    let h1 : Headers = fallback "IN_ONESHOT" (some (pos 0x80000000)) h in
    let e1 : h1 name ≡ some v = fallback_defined h "IN_ONESHOT" name (some (pos 0x80000000)) v e in
    let h2 : Headers = fallback "IN_MASK_ADD" (some (pos 0x20000000)) h1 in
    let e2 : h2 name ≡ some v =
      fallback_defined h1 "IN_MASK_ADD" name (some (pos 0x20000000)) v e1 in
    let h3 : Headers = fallback "IN_EXCL_UNLINK" (some (pos 0x4000000)) h2 in
    let e3 : h3 name ≡ some v =
      fallback_defined h2 "IN_EXCL_UNLINK" name (some (pos 0x4000000)) v e2 in
    let h4 : Headers = fallback "IN_DONT_FOLLOW" (some (pos 0x2000000)) h3 in
    let e4 : h4 name ≡ some v =
      fallback_defined h3 "IN_DONT_FOLLOW" name (some (pos 0x2000000)) v e3 in
    let h5 : Headers = fallback "IN_ONLYDIR" (some (pos 0x1000000)) h4 in
    let e5 : h5 name ≡ some v = fallback_defined h4 "IN_ONLYDIR" name (some (pos 0x1000000)) v e4 in
    let h6 : Headers = fallback "IN_ATTRIB" (some (pos 0x4)) h5 in
    let e6 : h6 name ≡ some v = fallback_defined h5 "IN_ATTRIB" name (some (pos 0x4)) v e5 in
    let h7 : Headers = fallback "IN_NONBLOCK" (h "O_NONBLOCK") h6 in
    let e7 : h7 name ≡ some v = fallback_defined h6 "IN_NONBLOCK" name (h "O_NONBLOCK") v e6 in
    fallback_defined h7 "IN_CLOEXEC" name (some (pos 0x80000)) v e7

within_rows :
    (name macro : String)
    → Memᴰ (name, macro) in2_rows
    → Memᴰ (in_const (name, macro)) sleepy_penguin_init_inotify
unfolding sleepy_penguin_init_inotify
within_rows name macro m = tail (
    tail (
      tail (
        tail (
          tail (
            tail (
              tail (
                tail (
                  tail (
                    tail (
                      tail (
                        append_left {s = map in_const in2_rows}
                          (map in_const in_rows
                            ++ (define_int inotify "NONBLOCK" "IN_NONBLOCK"
                                ∷ define_int inotify "CLOEXEC" "IN_CLOEXEC"
                                ∷ []))
                          (mem-map in_const m))))))))))))

pub row_declared :
    (version name macro : String)
    → Memᴰ (name, macro) in2_rows
    → Memᴰ (row_decl name macro) (declarations version)
unfolding declarations
row_declared version name macro m = tail (
    tail (
      append_right (under "HAVE_SYS_EVENT_H" sleepy_penguin_init_kqueue) (
        append_right
          (under "HAVE_SYS_EPOLL_H"
            (map (within (λ h. epoll_headers (clock_headers h))) sleepy_penguin_init_epoll))
          (append_right (under "HAVE_SYS_TIMERFD_H" sleepy_penguin_init_timerfd) (
            append_right (under "HAVE_SYS_EVENTFD_H" sleepy_penguin_init_eventfd) (
              append_left
                (under "HAVE_SPLICE" (map (within pipe_headers) sleepy_penguin_init_splice)
                  ++ (map (ifdef has_cfr) sleepy_penguin_init_cfr ++ sleepy_penguin_init_sendfile))
                (mem-map (ifdef (λ h. is_some (h "HAVE_SYS_INOTIFY_H")))
                  (mem-map (within inotify_headers) (within_rows name macro m)))))))))

-- The system's value of a macro as the `uint32_t` that the table holds.
abbrev pub mask_of : Headers → String → ℕ
mask_of h macro = elim (h macro) [
  | none ↦ 0
  | some (pos n) ↦ n % 2 ^ 32
  | some (negsuc n) ↦ 2 ^ 32 - 1 - n % 2 ^ 32
]

mask_of_lem :
    (h : Headers) (macro : String) (v : ℤ)
    → h macro ≡ some v
    → uint2num v ≡ fixnum (pos (mask_of h macro))
unfolding uint2num
mask_of_lem h macro (pos n) e = rw (e, mask_of) refl
mask_of_lem h macro (negsuc n) e = rw (e, mask_of) refl

-- On a system with inotify, each name that `Event#events` tests for is a constant of the class, and
-- its value is the mask in the table; the compiler accepts all the registrations, and the
-- macro of the row is defined there.
pub checks_registered :
    (h : Headers) (version : String) (reg reg' : Registry) (name macro : String) (v : ℤ)
    → Memᴰ (name, macro) in2_rows
    → is_some (h "HAVE_SYS_INOTIFY_H") ≡ true
    → h macro ≡ some v
    → declare_all h (declarations version) reg ≡ built reg'
    → find (const_key inotify name) reg' ≡ some (a_constant (fixnum (pos (mask_of h macro))))
unfolding is_module key_of binding
checks_registered h version reg reg' name macro v m here e built_all =
    let value : binding h (row_decl name macro) ≡ built (some (a_constant (uint2num v))) =
      rw (here, binding) (rw (inotify_headers_defined h macro v e, macro_value) refl) in
    registered h version (row_decl name macro) reg reg' _ (row_declared version name macro m) refl
      built_all value
    ∙ ap (λ c. some (a_constant c)) (mask_of_lem h macro v e)
