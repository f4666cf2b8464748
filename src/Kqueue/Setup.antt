-- ===== src/Kqueue/Setup.antt =====
-- `sleepy_penguin_init_kqueue` of ext/sleepy_penguin/kqueue.c and its four tables of constants.
use sleepy_penguin.Registry.{
  define_int, define_uint, define_method, define_singleton_method, define_class_under,
  define_module, under, define_module_under, Decl,
}
use sleepy_penguin.Base.{negsuc, pos, ◌++◌, [], ◌∷◌, List}

unfoldable pub init_ev : List Decl
init_ev =
    (define_module_under "SleepyPenguin" "Ev"
      ∷ define_uint "SleepyPenguin::Ev" "ADD" "EV_ADD"
      ∷ define_uint "SleepyPenguin::Ev" "ENABLE" "EV_ENABLE"
      ∷ define_uint "SleepyPenguin::Ev" "DISABLE" "EV_DISABLE"
      ∷ define_uint "SleepyPenguin::Ev" "DISPATCH" "EV_DISPATCH"
      ∷ define_uint "SleepyPenguin::Ev" "DELETE" "EV_DELETE"
      ∷ define_uint "SleepyPenguin::Ev" "RECEIPT" "EV_RECEIPT"
      ∷ define_uint "SleepyPenguin::Ev" "ONESHOT" "EV_ONESHOT"
      ∷ define_uint "SleepyPenguin::Ev" "CLEAR" "EV_CLEAR"
      ∷ define_uint "SleepyPenguin::Ev" "EOF" "EV_EOF"
      ∷ define_uint "SleepyPenguin::Ev" "ERROR" "EV_ERROR"
      ∷ [])

unfoldable pub init_evfilt : List Decl
init_evfilt =
    (define_module_under "SleepyPenguin" "EvFilt"
      ∷ define_int "SleepyPenguin::EvFilt" "READ" "EVFILT_READ"
      ∷ define_int "SleepyPenguin::EvFilt" "WRITE" "EVFILT_WRITE"
      ∷ define_int "SleepyPenguin::EvFilt" "AIO" "EVFILT_AIO"
      ∷ define_int "SleepyPenguin::EvFilt" "VNODE" "EVFILT_VNODE"
      ∷ [])
    ++ ((under "EVFILT_PROC" (define_int "SleepyPenguin::EvFilt" "PROC" "EVFILT_PROC" ∷ []))
        ++ ((define_int "SleepyPenguin::EvFilt" "SIGNAL" "EVFILT_SIGNAL"
              ∷ define_int "SleepyPenguin::EvFilt" "TIMER" "EVFILT_TIMER"
              ∷ [])
            ++ ((under "EVFILT_NETDEV"
                  (define_int "SleepyPenguin::EvFilt" "NETDEV" "EVFILT_NETDEV" ∷ []))
                ++ ((under "EVFILT_FS" (define_int "SleepyPenguin::EvFilt" "FS" "EVFILT_FS" ∷ []))
                    ++ ((under "EVFILT_LIO"
                          (define_int "SleepyPenguin::EvFilt" "LIO" "EVFILT_LIO" ∷ []))
                        ++ ((define_int "SleepyPenguin::EvFilt" "USER" "EVFILT_USER" ∷ [])))))))

unfoldable pub init_note : List Decl
init_note =
    (define_module_under "SleepyPenguin" "Note"
      ∷ define_uint "SleepyPenguin::Note" "FFNOP" "NOTE_FFNOP"
      ∷ define_uint "SleepyPenguin::Note" "FFAND" "NOTE_FFAND"
      ∷ define_uint "SleepyPenguin::Note" "FFOR" "NOTE_FFOR"
      ∷ define_uint "SleepyPenguin::Note" "FFCOPY" "NOTE_FFCOPY"
      ∷ define_uint "SleepyPenguin::Note" "FFCTRLMASK" "NOTE_FFCTRLMASK"
      ∷ define_uint "SleepyPenguin::Note" "FFLAGSMASK" "NOTE_FFLAGSMASK"
      ∷ define_uint "SleepyPenguin::Note" "TRIGGER" "NOTE_TRIGGER"
      ∷ [])
    ++ ((under "NOTE_LOWAT" (define_uint "SleepyPenguin::Note" "LOWAT" "NOTE_LOWAT" ∷ []))
        ++ ((under "EVFILT_VNODE" (
              define_uint "SleepyPenguin::Note" "DELETE" "NOTE_DELETE"
              ∷ define_uint "SleepyPenguin::Note" "WRITE" "NOTE_WRITE"
              ∷ define_uint "SleepyPenguin::Note" "EXTEND" "NOTE_EXTEND"
              ∷ define_uint "SleepyPenguin::Note" "ATTRIB" "NOTE_ATTRIB"
              ∷ define_uint "SleepyPenguin::Note" "LINK" "NOTE_LINK"
              ∷ define_uint "SleepyPenguin::Note" "RENAME" "NOTE_RENAME"
              ∷ []))
            ++ ((under "EVFILT_VNODE" (
                  under "NOTE_REVOKE"
                    (define_uint "SleepyPenguin::Note" "REVOKE" "NOTE_REVOKE" ∷ [])))
                ++ ((under "EVFILT_PROC" (
                      define_uint "SleepyPenguin::Note" "EXIT" "NOTE_EXIT"
                      ∷ define_uint "SleepyPenguin::Note" "FORK" "NOTE_FORK"
                      ∷ define_uint "SleepyPenguin::Note" "EXEC" "NOTE_EXEC"
                      ∷ define_uint "SleepyPenguin::Note" "PCTRLMASK" "NOTE_PCTRLMASK"
                      ∷ define_uint "SleepyPenguin::Note" "PDATAMASK" "NOTE_PDATAMASK"
                      ∷ define_uint "SleepyPenguin::Note" "TRACK" "NOTE_TRACK"
                      ∷ define_uint "SleepyPenguin::Note" "TRACKERR" "NOTE_TRACKERR"
                      ∷ define_uint "SleepyPenguin::Note" "CHILD" "NOTE_CHILD"
                      ∷ []))
                    ++ ((under "EVFILT_NETDEV" (
                        define_uint "SleepyPenguin::Note" "LINKUP" "NOTE_LINKUP"
                        ∷ define_uint "SleepyPenguin::Note" "LINKDOWN" "NOTE_LINKDOWN"
                        ∷ define_uint "SleepyPenguin::Note" "LINKINV" "NOTE_LINKINV"
                        ∷ [])))))))

unfoldable pub init_vq : List Decl
init_vq =
    (under "VQ_NOTRESP" (
      define_module_under "SleepyPenguin" "VQ"
      ∷ define_uint "SleepyPenguin::VQ" "NOTRESP" "VQ_NOTRESP"
      ∷ define_uint "SleepyPenguin::VQ" "NEEDAUTH" "VQ_NEEDAUTH"
      ∷ define_uint "SleepyPenguin::VQ" "LOWDISK" "VQ_LOWDISK"
      ∷ define_uint "SleepyPenguin::VQ" "MOUNT" "VQ_MOUNT"
      ∷ define_uint "SleepyPenguin::VQ" "UNMOUNT" "VQ_UNMOUNT"
      ∷ define_uint "SleepyPenguin::VQ" "DEAD" "VQ_DEAD"
      ∷ define_uint "SleepyPenguin::VQ" "ASSIST" "VQ_ASSIST"
      ∷ define_uint "SleepyPenguin::VQ" "NOTRESPLOCK" "VQ_NOTRESPLOCK"
      ∷ []))

unfoldable pub sleepy_penguin_init_kqueue : List Decl
unfolding init_ev init_evfilt init_note init_vq
sleepy_penguin_init_kqueue =
    (define_module "SleepyPenguin" ∷ [])
    ++ (init_ev
        ++ (init_evfilt
            ++ (init_note
                ++ (init_vq
                    ++ (define_class_under "SleepyPenguin" "Kqueue" "Object"
                        ∷ define_class_under "SleepyPenguin::Kqueue" "IO" "IO"
                        ∷ define_singleton_method "SleepyPenguin::Kqueue::IO" "new" "s_new" (pos 0)
                        ∷ define_method "SleepyPenguin::Kqueue::IO" "kevent" "sp_kevent" (negsuc 0)
                        ∷ [])))))
