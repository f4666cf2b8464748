-- ===== src/Inotify/Wire/Encode.antt =====
-- The layout of inotify(7), written as the kernel writes it, and read back by the loop of `take`.
use sleepy_penguin.Base.{
  zero, drop-append, ◌∙◌, ◌≤◌, ℤ, length-append, map, drop, if◌then◌else◌, refl, ap, false, ◌==◌,
  arith, suc, none, ◌≡◌, length, replicate, ◌/◌, ◌∷◌, some, ◌^◌, int_of_u64, [], ◌++◌, ◌%◌, ◌<◌,
  Option, List, ℕ,
}
use sleepy_penguin.Inotify.Wire.{
  decode_from, decode_events, event_new, event_len, field_len, c_string, get_u32, Event,
}

-- Four bytes, lowest first.
abbrev pub put_u32 : ℕ → List ℕ
put_u32 n = n % 256 ∷ n / 256 % 256 ∷ n / 65536 % 256 ∷ n / 16777216 % 256 ∷ []

-- What the kernel reports: a watch, and a name with its number of zero bytes of padding, if any.
pub record Report : Type 0 where
  pub wd : ℕ
  pub mask : ℕ
  pub cookie : ℕ
  pub name : Option (List ℕ × ℕ)

abbrev pub padded : List ℕ × ℕ → List ℕ
padded (bs, k) = bs ++ replicate (suc k) 0

abbrev pub field : Option (List ℕ × ℕ) → List ℕ
field none = []
field (some n) = padded n

-- The header and the field for the name.
abbrev pub encode_event : Report → List ℕ
encode_event r =
    put_u32 r.wd
    ++ (put_u32 r.mask ++ (put_u32 r.cookie ++ (put_u32 (length (field r.name)) ++ field r.name)))

abbrev pub encode : List Report → List ℕ
encode [] = []
encode (r ∷ rs) = encode_event r ++ encode rs

abbrev pub event_of : Report → Event
event_of r = record {
  wd = int_of_u64 r.wd;
  mask = r.mask;
  cookie = r.cookie;
  name = elim r.name [ none ↦ none | some n ↦ some n.0 ];
}

-- No zero byte is in the name.
abbrev pub IsText : List ℕ → Type 0
IsText [] = Unit {0}
IsText (b ∷ bs) = (0 < b) × IsText bs

abbrev pub IsName : Option (List ℕ × ℕ) → Type 0
IsName none = Unit {0}
IsName (some (bs, k)) = IsText bs

-- The fields fit their 32 bits.
pub record Fits (r : Report) : Type 0 where
  pub wd : r.wd < 2 ^ 32
  pub mask : r.mask < 2 ^ 32
  pub cookie : r.cookie < 2 ^ 32
  pub len : length (field r.name) < 2 ^ 32
  pub name : IsName r.name

abbrev pub AllFit : List Report → Type 0
AllFit [] = Unit {0}
AllFit (r ∷ rs) = Fits r × AllFit rs

get-put : (n : ℕ) (rest : List ℕ) → n < 2 ^ 32 → get_u32 (put_u32 n ++ rest) ≡ n
unfolding get_u32
get-put n rest h = omega arith

c_string-padded :
    (bs : List ℕ) (k : ℕ) (rest : List ℕ) → IsText bs → c_string (padded (bs, k) ++ rest) ≡ bs
unfolding c_string
c_string-padded [] k rest t = refl
c_string-padded (b ∷ bs) k rest (p, t) =
    let h : (b == 0) ≡ false = ground arith in rw h (ap (λ x. b ∷ x) (c_string-padded bs k rest t))

same_event :
    {a b : ℤ} {m n c d : ℕ} {x y : Option (List ℕ)}
    → a ≡ b
    → m ≡ n
    → c ≡ d
    → x ≡ y
    → ◌≡◌ {A = Event}
        (record { wd = a; mask = m; cookie = c; name = x })
        (record { wd = b; mask = n; cookie = d; name = y })
same_event p q r s = rw (p, q, r, s) refl

module _ (r : Report) (fits : Fits r) (rest : List ℕ) where
  field_len-encode : field_len (encode_event r ++ rest) ≡ length (field r.name)
  field_len-encode = get-put (length (field r.name)) (field r.name ++ rest) fits.len

  event_len-encode : event_len (encode_event r ++ rest) ≡ length (encode_event r)
  unfolding event_len
  event_len-encode = omega (arith, field_len-encode)

  name-encode :
      (n : Option (List ℕ × ℕ))
      → r.name ≡ n
      → IsName n
      → (if field_len (encode_event r ++ rest) == 0
          then none
          else some (c_string (drop 16 (encode_event r ++ rest))))
        ≡ elim n [ none ↦ none | some x ↦ some x.0 ]
  name-encode none e t = rw (field_len-encode, e) refl
  name-encode (some (bs, k)) e t =
      let h : (length (padded (bs, k)) == 0) ≡ false =
        ground (arith, length-append bs (replicate (suc k) 0)) in
      rw (field_len-encode, e) (rw h (ap some (c_string-padded bs k rest t)))

  event_new-encode : event_new (encode_event r ++ rest) ≡ event_of r
  unfolding event_new
  event_new-encode =
      same_event (ap int_of_u64 (get-put r.wd (drop 4 (encode_event r ++ rest)) fits.wd))
        (get-put r.mask (drop 8 (encode_event r ++ rest)) fits.mask)
        (get-put r.cookie (drop 12 (encode_event r ++ rest)) fits.cookie)
        (name-encode r.name refl fits.name)

cong_cons : {x y : Event} {xs ys : List Event} → x ≡ y → xs ≡ ys → x ∷ xs ≡ y ∷ ys
cong_cons p q = rw (p, q) refl

decode_from-encode :
    (n : ℕ) (rs : List Report)
    → AllFit rs
    → length rs ≤ n
    → decode_from n (encode rs) ≡ map event_of rs
unfolding decode_from
decode_from-encode zero [] h le = refl
decode_from-encode (suc n) [] h le = refl
decode_from-encode zero (r ∷ rs) h le = absurd (omega arith)
decode_from-encode (suc n) (r ∷ rs) (f, h) le =
    let skip : drop (event_len (encode_event r ++ encode rs)) (encode_event r ++ encode rs)
        ≡ encode rs =
      ap (λ k. drop k (encode_event r ++ encode rs)) (event_len-encode r f (encode rs))
      ∙ drop-append (length (encode_event r)) (encode_event r) (encode rs) refl in
    cong_cons (event_new-encode r f (encode rs))
      (ap (decode_from n) skip ∙ decode_from-encode n rs h (omega arith))

encode-length : (rs : List Report) → length rs ≤ length (encode rs)
encode-length [] = omega arith
encode-length (r ∷ rs) = omega (arith, encode-length rs, length-append (encode_event r) (encode rs))

-- The events that the loop of `take` reads out of what the kernel writes are those reported, in
-- their order: the watch as an `int`, the mask, the cookie, and the name without its padding, where
-- there is one. The numbers fit 32 bits, and no name has a zero byte.
pub decode_events-encode :
    (rs : List Report) → AllFit rs → decode_events (encode rs) ≡ map event_of rs
unfolding decode_events
decode_events-encode rs h = decode_from-encode (length (encode rs)) rs h (encode-length rs)
