-- ===== src/Inotify/Setup.antt =====
-- `sleepy_penguin_init_inotify` of ext/sleepy_penguin/inotify.c.
use sleepy_penguin.Base.{◌++◌, negsuc, pos, map, [], ℕ, ◌∷◌, List, String}
use sleepy_penguin.Registry.{
  define_int, define_uint, define_singleton_method, define_method, define_class_under,
  define_module, Decl,
}

abbrev inotify : String
inotify = "SleepyPenguin::Inotify"

-- The macro `IN`, of a constant and the macro with `IN_` in front.
abbrev pub in_const : String × String → Decl
in_const (name, macro) = define_uint inotify name macro

-- What `IN2` is used for, in its order: these names go into the table `checks` as well.
abbrev pub in2_rows : List (String × String)
in2_rows =
    ("ACCESS", "IN_ACCESS")
    ∷ ("MODIFY", "IN_MODIFY")
    ∷ ("ATTRIB", "IN_ATTRIB")
    ∷ ("CLOSE_WRITE", "IN_CLOSE_WRITE")
    ∷ ("CLOSE_NOWRITE", "IN_CLOSE_NOWRITE")
    ∷ ("OPEN", "IN_OPEN")
    ∷ ("MOVED_FROM", "IN_MOVED_FROM")
    ∷ ("MOVED_TO", "IN_MOVED_TO")
    ∷ ("CREATE", "IN_CREATE")
    ∷ ("DELETE", "IN_DELETE")
    ∷ ("DELETE_SELF", "IN_DELETE_SELF")
    ∷ ("MOVE_SELF", "IN_MOVE_SELF")
    ∷ ("UNMOUNT", "IN_UNMOUNT")
    ∷ ("Q_OVERFLOW", "IN_Q_OVERFLOW")
    ∷ ("IGNORED", "IN_IGNORED")
    ∷ ("ISDIR", "IN_ISDIR")
    ∷ []

abbrev pub in_rows : List (String × String)
in_rows =
    ("CLOSE", "IN_CLOSE")
    ∷ ("MOVE", "IN_MOVE")
    ∷ ("ONLYDIR", "IN_ONLYDIR")
    ∷ ("DONT_FOLLOW", "IN_DONT_FOLLOW")
    ∷ ("EXCL_UNLINK", "IN_EXCL_UNLINK")
    ∷ ("MASK_ADD", "IN_MASK_ADD")
    ∷ ("ONESHOT", "IN_ONESHOT")
    ∷ []

unfoldable pub sleepy_penguin_init_inotify : List Decl
sleepy_penguin_init_inotify =
    (define_module "SleepyPenguin"
      ∷ define_class_under "SleepyPenguin" "Inotify" "IO"
      ∷ define_method inotify "add_watch" "add_watch" (pos 2)
      ∷ define_method inotify "rm_watch" "rm_watch" (pos 1)
      ∷ define_method inotify "take" "take" (negsuc 0)
      ∷ define_method inotify "each" "each" (pos 0)
      ∷ define_class_under "Struct" "Event" "Struct"
      ∷ define_class_under inotify "Event" "Struct::Event"
      ∷ define_method "SleepyPenguin::Inotify::Event" "events" "events" (pos 0)
      ∷ define_singleton_method inotify "new" "s_new" (negsuc 0)
      ∷ in_const ("ALL_EVENTS", "IN_ALL_EVENTS")
      ∷ [])
    ++ (map in_const in2_rows
        ++ (map in_const in_rows
            ++ (define_int inotify "NONBLOCK" "IN_NONBLOCK"
                ∷ define_int inotify "CLOEXEC" "IN_CLOEXEC"
                ∷ [])))

-- The table `checks`: name, number, name, number in the order of `IN2`.
unfoldable pub checks : (String → ℕ) → List (String × ℕ)
checks value = map (λ r. (r.0, value r.1)) in2_rows
