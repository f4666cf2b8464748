-- ===== src/Kqueue/Changelist.antt =====
-- The conversion of a changelist into `struct kevent`s.
use sleepy_penguin.Ruby.{nil, to_list, structure, array, item, Value, Vm, Values}
use sleepy_penguin.Base.{ap, suc, length, [], ◌≡◌, ◌∷◌, arith, refl, true, List, false, Bool}
use sleepy_penguin.Proc.{St, Run}
use sleepy_penguin.Proc.Sat.{Sat-mono, Sat-and_then, Sat}
use sleepy_penguin.Proc.Frame.{Frames-Sat, Frames-pure, Frames-call, Frames-bind, Frames}
use sleepy_penguin.Kqueue.Convert.{ary2eventlist, unpack_event, ev_set_struct, ev_set_ary, ev_set}
use sleepy_penguin.Proc.Halts.{Halts-Ends, Halts-Sat, NoMore}
use sleepy_penguin.Kqueue.Ends.{list-Ends}
use sleepy_penguin.Util.Ends.{uncounted}

-- An element that is itself an Array, as the messages and the documentation of `kevent` allow.
abbrev pub has_array : Values → Bool
has_array nil = false
has_array (item (array vs) rest) = true
has_array (item v rest) = has_array rest

module _ {W : Type 0} (vm : Vm W) where
  abbrev Never : {A : Type 0} → Run W A → Type 0
  Never = Sat Unit (λ _ _. ⊥) (λ _ _. Unit)

  ev_set-Frames : (vs : List Value) → Frames (ev_set vm vs)
  unfolding ev_set
  ev_set-Frames (v0 ∷ v1 ∷ v2 ∷ v3 ∷ v4 ∷ v5 ∷ []) =
      Frames-bind (Frames-call (vm.num2ulong v0)) λ _.
        Frames-bind (Frames-call (vm.num2short v1)) λ _.
          Frames-bind (Frames-call (vm.num2ushort v2)) λ _.
            Frames-bind (Frames-call (vm.num2uint v3))
              λ _. Frames-bind (Frames-call (vm.num2long v4)) λ _. Frames-pure _
  ev_set-Frames _ = record { run = λ s. (refl, refl) }

  set_ary-Frames : (vs : Values) → Frames (ev_set_ary vm vs)
  unfolding ev_set_ary
  set_ary-Frames vs =
      Frames-bind (ev_set-Frames (to_list vs)) λ ev. record { run = λ s. ground arith }

  set_struct-Frames : (vs : Values) → Frames (ev_set_struct vm vs)
  unfolding ev_set_struct
  set_struct-Frames vs =
      Frames-bind (ev_set-Frames (to_list vs)) λ ev. record { run = λ s. ground arith }

  pub unpack-Frames : (v : Value) → Frames (unpack_event vm v)
  unfolding unpack_event
  unpack-Frames (structure fields) = set_struct-Frames fields
  unpack-Frames (array fields) =
      Frames-bind (set_ary-Frames fields) λ _. record { run = λ s. (refl, refl) }
  unpack-Frames _ = record { run = λ s. (refl, refl) }

  pub list-Frames : (vs : Values) → Frames (ary2eventlist vm vs)
  unfolding ary2eventlist
  list-Frames nil = record { run = λ s. (refl, refl) }
  list-Frames (item v vs) =
      Frames-bind (unpack-Frames v)
        λ e. Frames-bind (list-Frames vs) λ es. record { run = λ s. (refl, refl) }

  -- An element that is an Array never gets through: with six elements it is converted first, and
  -- then refused like one of any other length.
  array_refused : (fields : Values) (s : St W) → Never (unpack_event vm (array fields) s)
  unfolding unpack_event
  array_refused fields s =
      Sat-and_then Unit (λ _ _. Unit) (λ _ _. ⊥) (λ _ _. Unit) (ev_set_ary vm fields s) _
        (Frames-Sat (ev_set_ary vm fields) s (set_ary-Frames fields)) (λ e t h. tt)

  array_element_Never :
      (vs : Values) (s : St W) → has_array vs ≡ true → Never (ary2eventlist vm vs s)
  unfolding ary2eventlist
  array_element_Never nil s h = cc
  array_element_Never (item (array fields) vs) s h =
      Sat-and_then Unit (λ _ _. ⊥) (λ _ _. ⊥) (λ _ _. Unit) (unpack_event vm (array fields) s) _
        (array_refused fields s) (λ e t k. absurd k)
  array_element_Never (item v vs) s h =
      Sat-and_then Unit (λ _ _. Unit) (λ _ _. ⊥) (λ _ _. Unit) (unpack_event vm v s) _
        (Frames-Sat (unpack_event vm v) s (unpack-Frames v))
        λ e t k.
          Sat-and_then Unit (λ _ _. ⊥) (λ _ _. ⊥) (λ _ _. Unit) (ary2eventlist vm vs t) _
            (array_element_Never vs t h) (λ es u k. absurd k)

  -- A changelist with an Array among its elements is always refused: its conversion ends in an
  -- exception.
  pub array_element-refused :
      (vs : Values) (s : St W)
      → has_array vs ≡ true
      → Sat ⊥ (λ _ _. ⊥) (λ _ _. Unit {0}) (ary2eventlist vm vs s)
  array_element-refused vs s h =
      Sat-mono ⊥ ⊥ (λ es t. NoMore (λ _. 0) s es t × ⊥) (λ _ _. ⊥) (λ _ _. Unit) (λ _ _. Unit)
        (ary2eventlist vm vs s)
        (Halts-Sat (λ _ _. ⊥) (NoMore (λ _. 0) s) (λ _ _. Unit) (ary2eventlist vm vs s)
          (array_element_Never vs s h)
          (Halts-Ends (λ _. 0) s (ary2eventlist vm vs s)
            (list-Ends (λ _. 0) vm (uncounted vm) vs s)))
        (λ l. l) (λ es t k. k.1) (λ x t k. k)

  -- The events that a changelist is converted to are as many as it has elements, so that they fit
  -- the buffer that `kpt_get` has made room for.
  pub list-length :
      (vs : Values) (s : St W)
      → Sat
          (Unit {0})
          (λ es _. length es ≡ length (to_list vs))
          (λ _ _. Unit {0})
          (ary2eventlist vm vs s)
  unfolding ary2eventlist
  list-length nil s = refl
  list-length (item v vs) s =
      Sat-and_then Unit (λ _ _. Unit) (λ es _. length es ≡ suc (length (to_list vs))) (λ _ _. Unit)
        (unpack_event vm v s) _ (Frames-Sat (unpack_event vm v) s (unpack-Frames v))
        λ e t k.
          Sat-and_then Unit (λ es _. length es ≡ length (to_list vs)) _ (λ _ _. Unit)
            (ary2eventlist vm vs t) _ (list-length vs t) (λ es u q. ap suc q)
