-- ===== src/Registry.antt =====
-- Ruby's table of modules, classes, constants and methods, and the calls by which the functions
-- `sleepy_penguin_init_*` of ext/sleepy_penguin/*.c fill it.
pub mod Lookup
use text.Mathlib.Text.{◌==◌}
use sleepy_penguin.Base.{
  true, false, map, ◌-◌, negsuc, ◌^◌, is_some, ◌%◌, [], pos, if◌then◌else◌, ◌&&◌, ◌∷◌, some, none,
  ℕ, ℤ, Option, Bool, List, String,
}
use sleepy_penguin.Ruby.{fixnum, Value}

-- The macros of the system's headers and of the configuration; `none` is not defined.
abbrev pub Headers : Type 0
Headers = String → Option ℤ

-- A call of the C API; `ifdef` is one between `#ifdef` and `#endif`,
-- `within` one behind the `#define`s of a header. An owner is a path.
pub data Decl : Type 0 where
  define_module : String → Decl
  define_module_under : String → String → Decl
  define_class_under : String → String → String → Decl
  define_uint define_int : String → String → String → Decl
  define_ull : String → String → ℕ → Decl
  define_text : String → String → String → Decl
  define_method define_singleton_method : String → String → String → ℤ → Decl
  ifdef : (Headers → Bool) → Decl → Decl
  within : (Headers → Headers) → Decl → Decl

-- What a name stands for.
pub data Bound : Type 0 where
  a_module : Bound
  a_class : String → Bound
  a_constant : Value → Bound
  a_text : String → Bound
  a_method a_singleton : String → ℤ → Bound

-- A name under its owner; methods and constants are apart.
pub record Key : Type 0 where
  pub owner : String
  pub name : String
  pub kind : String

abbrev pub Registry : Type 0
Registry = List (Key × Bound)

abbrev pub same_key : Key → Key → Bool
same_key a b = (a.owner == b.owner) && ((a.name == b.name) && (a.kind == b.kind))

-- The newest binding of a key.
unfoldable pub find : Key → Registry → Option Bound
find k [] = none
find k ((j, b) ∷ reg) = if same_key j k then some b else find k reg

-- `UINT2NUM` of a macro: the C conversion to `unsigned`.
unfoldable pub uint2num : ℤ → Value
uint2num (pos n) = fixnum (pos (n % 2 ^ 32))
uint2num (negsuc n) = fixnum (pos (2 ^ 32 - 1 - n % 2 ^ 32))

abbrev pub const_key : String → String → Key
const_key owner name = record { owner = owner; name = name; kind = "constant" }

abbrev pub method_key : String → String → Key
method_key owner name = record { owner = owner; name = name; kind = "method" }

abbrev pub singleton_key : String → String → Key
singleton_key owner name = record { owner = owner; name = name; kind = "singleton method" }

-- The name that a call binds.
unfoldable pub key_of : Decl → Key
key_of (define_module name) = const_key "" name
key_of (define_module_under owner name) = const_key owner name
key_of (define_class_under owner name super) = const_key owner name
key_of (define_uint owner name macro) = const_key owner name
key_of (define_int owner name macro) = const_key owner name
key_of (define_ull owner name n) = const_key owner name
key_of (define_text owner name text) = const_key owner name
key_of (define_method owner name function arity) = method_key owner name
key_of (define_singleton_method owner name function arity) = singleton_key owner name
key_of (ifdef test d) = key_of d
key_of (within headers d) = key_of d

-- The compiler's verdict: a macro that is used and not defined stops the build.
pub data Build (A : Type 0) : Type 0 where
  built : A → Build A
  undeclared : String → Build A

abbrev pub and_build : {A B : Type 0} → Build A → (A → Build B) → Build B
and_build (built a) k = k a
and_build (undeclared m) k = undeclared m

abbrev pub macro_value : Headers → String → Build ℤ
macro_value h macro = elim (h macro) [ none ↦ undeclared macro | some v ↦ built v ]

-- What a call binds its name to; `none` is a call that the preprocessor has taken out.
unfoldable pub binding : Headers → Decl → Build (Option Bound)
binding h (define_module name) = built (some a_module)
binding h (define_module_under owner name) = built (some a_module)
binding h (define_class_under owner name super) = built (some (a_class super))
binding h (define_uint owner name macro) =
    and_build (macro_value h macro) (λ v. built (some (a_constant (uint2num v))))
binding h (define_int owner name macro) =
    and_build (macro_value h macro) (λ v. built (some (a_constant (fixnum v))))
binding h (define_ull owner name n) = built (some (a_constant (fixnum (pos n))))
binding h (define_text owner name text) = built (some (a_text text))
binding h (define_method owner name function arity) = built (some (a_method function arity))
binding h (define_singleton_method owner name function arity) =
    built (some (a_singleton function arity))
binding h (ifdef test d) = elim (test h) [ false ↦ built none | true ↦ binding h d ]
binding h (within headers d) = binding (headers h) d

unfoldable pub is_module : Decl → Bool
is_module (define_module name) = true
is_module (ifdef test d) = is_module d
is_module (within headers d) = is_module d
is_module _ = false

-- `rb_define_module` opens a module again that is there already.
abbrev pub bind_name : Decl → Option Bound → Registry → Registry
bind_name d none reg = reg
bind_name d (some b) reg =
    if is_module d && is_some (find (key_of d) reg) then reg else (key_of d, b) ∷ reg

unfoldable pub declare : Headers → Decl → Registry → Build Registry
declare h d reg = and_build (binding h d) (λ b. built (bind_name d b reg))

unfoldable pub declare_all : Headers → List Decl → Registry → Build Registry
declare_all h [] reg = built reg
declare_all h (d ∷ ds) reg = and_build (declare h d reg) (declare_all h ds)

-- `#ifdef macro` round some calls.
abbrev pub under : String → List Decl → List Decl
under macro = map (ifdef (λ h. is_some (h macro)))

-- `#ifndef macro`, `#define macro v`; `none` is a value that is not defined either.
unfoldable pub fallback : String → Option ℤ → Headers → Headers
fallback macro v h name = if macro == name then (if is_some (h name) then h name else v) else h name

-- `#define macro v`, whatever it was before.
unfoldable pub redefine : String → ℤ → Headers → Headers
redefine macro v h name = if macro == name then some v else h name
