-- ===== src/Kqueue/Convert.antt =====
-- The conversion of a changelist of ext/sleepy_penguin/kqueue.c into `struct kevent`s.
use sleepy_penguin.Base.{some, none, ◌∷◌, [], Option, List, ℤ, ℕ}
use sleepy_penguin.Ruby.{nil, item, to_list, array, structure, Value, Values, Vm}
use sleepy_penguin.Proc.{type_error, crash, throw, call, ◌>>◌, ◌>>=◌, pure, Cmd}

-- `struct kevent`
pub record Kevent : Type 0 where
  pub ident : ℕ
  pub filter : ℤ
  pub flags : ℕ
  pub fflags : ℕ
  pub event_data : ℤ
  pub udata : Value

module _ {W : Type 0} (vm : Vm W) where
  -- `EV_SET` from the six values, each converted to its C type.
  unfoldable pub ev_set : List Value → Cmd W (Option Kevent)
  ev_set (v0 ∷ v1 ∷ v2 ∷ v3 ∷ v4 ∷ v5 ∷ []) = do
    ident ← call (vm.num2ulong v0)
    filter ← call (vm.num2short v1)
    flags ← call (vm.num2ushort v2)
    fflags ← call (vm.num2uint v3)
    event_data ← call (vm.num2long v4)
    pure (
        some (record {
          ident = ident;
          filter = filter;
          flags = flags;
          fflags = fflags;
          event_data = event_data;
          udata = v5;
        }))
  ev_set _ = pure none

  unfoldable pub ev_set_struct : Values → Cmd W Kevent
  ev_set_struct fields = do
    ev ← ev_set (to_list fields)
    elim ev [ none ↦ throw (type_error "unsupported struct in changelist") | some e ↦ pure e ]

  unfoldable pub ev_set_ary : Values → Cmd W Kevent
  ev_set_ary fields = do
    ev ← ev_set (to_list fields)
    elim ev [
      | none ↦ throw (type_error "changelist must be an array of 6-element arrays or structs")
      | some e ↦ pure e
    ]

  -- `case T_ARRAY` has no `break`: it runs on into `default`.
  unfoldable pub unpack_event : Value → Cmd W Kevent
  unpack_event (structure fields) = ev_set_struct fields
  unpack_event (array fields) =
      ev_set_ary fields >> throw (type_error "unsupported type in changelist")
  unpack_event _ = throw (type_error "unsupported type in changelist")

  unfoldable pub ary2eventlist : Values → Cmd W (List Kevent)
  ary2eventlist nil = pure []
  ary2eventlist (item v vs) = do e ← unpack_event v; es ← ary2eventlist vs; pure (e ∷ es)

  -- `rb_bug` at what `sp_kevent` has let through by its type.
  unfoldable pub changelist_prepare : Value → Cmd W (List Kevent)
  unfolding ary2eventlist
  changelist_prepare (array vs) = ary2eventlist vs
  changelist_prepare (structure fields) = do e ← unpack_event (structure fields); pure (e ∷ [])
  changelist_prepare _ = λ s. crash
