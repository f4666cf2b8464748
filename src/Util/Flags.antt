-- ===== src/Util/Flags.antt =====
-- Flags by name: the constants of a class, and their union.
use mathlib.Core.List.{Memᴰ}
use mathlib.Core.List.Memᴰ.{head, tail}
use sleepy_penguin.Base.{refl, pos, [], ◌≡◌, bit_or, ◌∷◌, ℤ, ℕ, String, List}
use sleepy_penguin.Ruby.{array, fixnum, symbol, item, nil, Value, Values, Vm}
use sleepy_penguin.Util.{
  rb_sp_get_uflags, uint_const, or_flags, int_const, klass_for, rb_sp_get_flags,
}
use sleepy_penguin.Proc.{done, yields, St, Cmd}

-- A list of Symbols as the Array that a program passes.
abbrev pub symbols : List String → Values
symbols [] = nil
symbols (n ∷ ns) = item (symbol n) (symbols ns)

-- The union of the numbers of the names, from the first.
abbrev pub union : (String → ℕ) → ℕ → List String → ℕ
union value acc [] = acc
union value acc (n ∷ ns) = union value (bit_or acc (value n)) ns

module _ {W : Type 0} (vm : Vm W) where
  -- What Ruby documents of a class that has these names for Integer constants: looking one up and
  -- converting it has no other effect.
  pub record HasConstants (k : Value) (value : String → ℤ) (names : List String) : Type 0 where
    pub rb_const_get :
        (name : String) (e : ℕ) (w : W)
        → Memᴰ name names
        → vm.rb_const_get (klass_for vm k) name e w ≡ yields (fixnum (value name)) e w
    pub num2int :
        (name : String) (e : ℕ) (w : W)
        → Memᴰ name names
        → vm.num2int (fixnum (value name)) e w ≡ yields (value name) e w

  pub record HasMasks (k : Value) (value : String → ℕ) (names : List String) : Type 0 where
    pub rb_const_get :
        (name : String) (e : ℕ) (w : W)
        → Memᴰ name names
        → vm.rb_const_get (klass_for vm k) name e w ≡ yields (fixnum (pos (value name))) e w
    pub num2uint :
        (name : String) (e : ℕ) (w : W)
        → Memᴰ name names
        → vm.num2uint (fixnum (pos (value name))) e w ≡ yields (value name) e w

  or_flags-union :
      (const : String → Cmd W ℕ) (value : String → ℕ) (names : List String)
      → ((name : String) (s : St W) → Memᴰ name names → const name s ≡ done (value name) s)
      → (acc : ℕ) (s : St W)
      → or_flags vm const acc (symbols names) s ≡ done (union value acc names) s
  unfolding or_flags
  or_flags-union const value [] h acc s = refl
  or_flags-union const value (n ∷ ns) h acc s =
      rw (h n s (head refl))
        (or_flags-union const value ns (λ m t k. h m t (tail k)) (bit_or acc (value n)) s)

  int_const_lem :
      (k : Value) (value : String → ℤ) (names : List String) (name : String) (s : St W)
      → HasConstants k value names
      → Memᴰ name names
      → int_const vm (klass_for vm k) name s ≡ done (vm.int_bits (value name)) s
  unfolding int_const
  int_const_lem k value names name s c m =
      rw (c.rb_const_get name s.errno s.world m) (rw (c.num2int name s.errno s.world m) refl)

  uint_const_lem :
      (k : Value) (value : String → ℕ) (names : List String) (name : String) (s : St W)
      → HasMasks k value names
      → Memᴰ name names
      → uint_const vm (klass_for vm k) name s ≡ done (value name) s
  unfolding uint_const
  uint_const_lem k value names name s c m =
      rw (c.rb_const_get name s.errno s.world m) (rw (c.num2uint name s.errno s.world m) refl)

  -- Where the class has the names for Integer constants, flags given as an Array of names are the union of the
  -- constants' bits, whatever the default is; nothing else happens.
  pub get_flags-union :
      (k : Value) (value : String → ℤ) (names : List String) (default_flags : ℕ) (s : St W)
      → HasConstants k value names
      → rb_sp_get_flags vm k (array (symbols names)) default_flags s
        ≡ done (union (λ n. vm.int_bits (value n)) 0 names) s
  unfolding rb_sp_get_flags
  get_flags-union k value names default_flags s c =
      or_flags-union (int_const vm (klass_for vm k)) (λ n. vm.int_bits (value n)) names
        (λ n t m. int_const_lem k value names n t c m) 0 s

  pub get_uflags-union :
      (k : Value) (value : String → ℕ) (names : List String) (s : St W)
      → HasMasks k value names
      → rb_sp_get_uflags vm k (array (symbols names)) s ≡ done (union value 0 names) s
  unfolding rb_sp_get_uflags
  get_uflags-union k value names s c =
      or_flags-union (uint_const vm (klass_for vm k)) value names
        (λ n t m. uint_const_lem k value names n t c m) 0 s
