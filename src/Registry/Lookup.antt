-- ===== src/Registry/Lookup.antt =====
-- What is found in the table after a list of calls whose names are distinct.
use mathlib.Core.List.{Memᴰ}
use mathlib.Core.List.Memᴰ.{head, tail}
use text.Mathlib.TextPositions.{eq_refl}
use sleepy_penguin.Registry.{
  is_module, undeclared, binding, bind_name, Bound, built, Registry, Headers, key_of, and_build,
  same_key, declare_all, declare, find, Build, Key, Decl,
}
use sleepy_penguin.Base.{
  subst, none, inr, inl, arith, is_some, ◌∙◌, Bool-cases, some, sym, [], ap, refl, ◌||◌, not, ◌∷◌,
  Option, ◌≡◌, false, ◌&&◌, true, Bool, List,
}

-- No call of the list binds the key.
unfoldable pub fresh : Key → List Decl → Bool
fresh k [] = true
fresh k (d ∷ ds) = not (same_key (key_of d) k) && fresh k ds

-- No two calls bind one key, but for modules, which may be opened again.
unfoldable pub distinct : List Decl → Bool
unfolding fresh is_module key_of
distinct [] = true
distinct (d ∷ ds) = (is_module d || fresh (key_of d) ds) && distinct ds

same_key_refl : (k : Key) → same_key k k ≡ true
same_key_refl k = rw (eq_refl k.owner, eq_refl k.name, eq_refl k.kind) refl

build_inv :
    {A B : Type 0} (m : Build A) (k : A → Build B) (b : B)
    → and_build m k ≡ built b
    → (a : A) × (m ≡ built a) × (k a ≡ built b)
build_inv (built a) k b e = (a, refl, e)
build_inv (undeclared x) k b e = cc

-- A call that binds another key leaves what is found.
find-bind_name :
    (k : Key) (d : Decl) (b : Option Bound) (reg : Registry)
    → same_key (key_of d) k ≡ false
    → find k (bind_name d b reg) ≡ find k reg
unfolding find
find-bind_name k d none reg e = refl
find-bind_name k d (some b) reg e =
    elim (Bool-cases (is_module d && is_some (find (key_of d) reg))) [
      | inl f ↦ rw f refl
      | inr f ↦ rw f (rw e refl)
    ]

declare_inv :
    (h : Headers) (d : Decl) (reg reg' : Registry)
    → declare h d reg ≡ built reg'
    → (b : Option Bound) × (binding h d ≡ built b) × (bind_name d b reg ≡ reg')
unfolding declare
declare_inv h d reg reg' e =
    let (b, f, g) = build_inv (binding h d) (λ b. built (bind_name d b reg)) reg' e in (b, f, cc)

and_parts : (a b : Bool) → (a && b) ≡ true → (a ≡ true) × (b ≡ true)
and_parts true b e = (refl, e)
and_parts false b e = cc

find-declare_all :
    (h : Headers) (k : Key) (ds : List Decl) (reg reg' : Registry)
    → fresh k ds ≡ true
    → declare_all h ds reg ≡ built reg'
    → find k reg' ≡ find k reg
unfolding fresh declare_all
find-declare_all h k [] reg reg' f e = ap (find k) (sym (cc))
find-declare_all h k (d ∷ ds) reg reg' f e =
    let (mid, p, q) = build_inv (declare h d reg) (declare_all h ds) reg' e in
    let (b, _, s) = declare_inv h d reg mid p in
    let (apart, rest) = and_parts (not (same_key (key_of d) k)) (fresh k ds) f in
    find-declare_all h k ds mid reg' rest q
    ∙ ap (find k) (sym s)
    ∙ find-bind_name k d b reg (ground arith)

find-head :
    (d : Decl) (b : Bound) (reg : Registry)
    → is_module d ≡ false
    → find (key_of d) (bind_name d (some b) reg) ≡ some b
unfolding find
find-head d b reg e = rw e (rw (same_key_refl (key_of d)) refl)

-- After a list of calls that bind distinct names, and that the compiler accepts, each name is found
-- with what its call binds, whatever the table before;
-- modules, which may be opened again, are left aside.
pub find-declared :
    (h : Headers) (d : Decl) (ds : List Decl) (reg reg' : Registry) (b : Bound)
    → Memᴰ d ds
    → distinct ds ≡ true
    → is_module d ≡ false
    → declare_all h ds reg ≡ built reg'
    → binding h d ≡ built (some b)
    → find (key_of d) reg' ≡ some b
unfolding distinct declare_all
find-declared h d [] reg reg' b m u n e g = elim m [ ]
find-declared h d (x ∷ ds) reg reg' b (head i) u n e g =
    let (mid, p, q) = build_inv (declare h x reg) (declare_all h ds) reg' e in
    let (c, r, s) = declare_inv h x reg mid p in
    let (clear, rest) = and_parts (is_module x || fresh (key_of x) ds) (distinct ds) u in
    let nx : is_module x ≡ false = subst (λ y. is_module y ≡ false) i n in
    let fx : fresh (key_of x) ds ≡ true = rw nx at clear in
    let same : c ≡ some b = cc (r, subst (λ y. binding h y ≡ built (some b)) i g) in
    let found : find (key_of x) mid ≡ some b =
      subst (λ t. find (key_of x) t ≡ some b) (ap (λ y. bind_name x y reg) (sym same) ∙ s)
        (find-head x b reg nx) in
    subst (λ y. find (key_of y) reg' ≡ some b) (sym i)
      (find-declare_all h (key_of x) ds mid reg' fx q ∙ found)
find-declared h d (x ∷ ds) reg reg' b (tail m) u n e g =
    let (mid, p, q) = build_inv (declare h x reg) (declare_all h ds) reg' e in
    let (clear, rest) = and_parts (is_module x || fresh (key_of x) ds) (distinct ds) u in
    find-declared h d ds mid reg' b m rest n q g

-- Every call is one that the compiler accepts.
pub AllAccepted : Headers → List Decl → Type 0
AllAccepted h ds = (d : Decl) → Memᴰ d ds → (b : Option Bound) × (binding h d ≡ built b)

-- The compiler accepts a list of calls where it accepts each of them.
pub declare_all-built :
    (h : Headers) (ds : List Decl) (reg : Registry)
    → AllAccepted h ds
    → (reg' : Registry) × (declare_all h ds reg ≡ built reg')
unfolding AllAccepted declare_all declare
declare_all-built h [] reg a = (reg, refl)
declare_all-built h (d ∷ ds) reg a =
    let (b, e) = a d (head refl) in
    let (reg', f) = declare_all-built h ds (bind_name d b reg) (λ x m. a x (tail m)) in
    (reg', rw e f)
