-- ===== src/Env/Windows/Changes.antt =====
-- src/env-win32.c: each change of the cache leaves one entry for a name, whose text is in its buffer.
use mmlib.Base.{
  ℕ, zero, suc, ◌+◌, ◌≤◌, ◌≡◌, refl, sym, ◌∙◌, subst, inl, inr, true, Bool-cases, Option-cases,
  some, [], ◌∷◌, ◌++◌, arith, ltb, length, length-append, length-take, take, drop, take-take-append,
  take-length-append, drop-suc-length,
}
use mathlib.Core.Option.{some-injective}
use mmlib.Base.CString.{Bytes, bytes_eq_refl}
use mmlib.Env.Windows.{
  Envstr, Malloc, envstr_init, envstr_get_value, envstr_resize_value, write_value, envstr_set_value,
  matches, equal_sign, string_buffer,
}
use mmlib.Env.Windows.Entries.{IsEntry, SameName}

drop-take-append : (n : ℕ) (xs ys : Bytes) → n ≤ length xs → drop n (take n xs ++ ys) ≡ ys
drop-take-append zero xs ys h = refl
drop-take-append (suc n) [] ys h = absurd (omega arith)
drop-take-append (suc n) (x ∷ xs) ys h = drop-take-append n xs ys (omega arith)

-- A copied value is read back, and the name is kept.
pub get_value-write_value :
    (x : Envstr) (value : Bytes) → IsEntry x → envstr_get_value (write_value x value) ≡ value
unfolding envstr_get_value
get_value-write_value x value h = drop-take-append (suc x.namelen) x.str value h.has_value

pub write_value-SameName :
    (x : Envstr) (value : Bytes) → IsEntry x → SameName (write_value x value) x
unfolding matches
write_value-SameName x value h name =
    rw (take-take-append x.namelen (suc x.namelen) x.str value (omega arith) h.has_value) refl

length-write_value :
    (x : Envstr) (value : Bytes)
    → IsEntry x
    → length (write_value x value).str ≡ suc x.namelen + length value
length-write_value x value h = ground (
  arith,
  length-append (take (suc x.namelen) x.str) value,
  length-take (suc x.namelen) x.str,
  h.has_value,
)

-- What envstr_set_value makes of an entry, when it succeeds.
pub record Written (x : Envstr) (value : Bytes) (y : Envstr) : Type 0 where
  pub entry : IsEntry y
  pub same : SameName y x
  pub reads : envstr_get_value y ≡ value

-- What envstr_resize_value makes of it.
record Resized (x : Envstr) (value_len : ℕ) (r : Envstr) : Type 0 where
  grown : IsEntry r
  kept : SameName r x
  room : value_len + r.namelen + 2 ≤ r.str_maxlen

with_maxlen-Resized :
    (x : Envstr) (value_len str_maxlen : ℕ)
    → IsEntry x
    → x.str_maxlen ≤ str_maxlen
    → value_len + x.namelen + 2 ≤ str_maxlen
    → Resized x value_len (record { str = x.str; namelen = x.namelen; str_maxlen = str_maxlen })
unfolding matches
with_maxlen-Resized x value_len str_maxlen h le room = record {
  grown = record { has_value = h.has_value; fits = omega (arith, h.fits, le) };
  kept = λ name. refl;
  room = room;
}

envstr_resize_value-Resized :
    (malloc : Malloc) (x r : Envstr) (value_len : ℕ)
    → IsEntry x
    → envstr_resize_value malloc x value_len ≡ some r
    → Resized x value_len r
unfolding envstr_resize_value
envstr_resize_value-Resized malloc x r value_len h e =
    let n = value_len + x.namelen + 2 in
    let big : Envstr = record { str = x.str; namelen = x.namelen; str_maxlen = n } in
    elim (Bool-cases (ltb x.str_maxlen n)) [
      | inr s ↦
          let same : some x ≡ some r = sym (rw (s, envstr_resize_value) refl) ∙ e in
          subst (λ k. Resized x value_len k) (some-injective x r same)
            (with_maxlen-Resized x value_len x.str_maxlen h (omega arith) (ground (arith, s)))
      | inl s ↦ elim (Bool-cases (malloc string_buffer n)) [
        | inr g ↦ absurd (ground (arith, e, s, g))
        | inl g ↦
            let same : some big ≡ some r = sym (rw (s, g, envstr_resize_value) refl) ∙ e in
            subst (λ k. Resized x value_len k) (some-injective big r same)
              (with_maxlen-Resized x value_len n h (ground (arith, s)) (omega arith))
      ]
    ]

write_value-Written :
    (x r : Envstr) (value : Bytes)
    → Resized x (length value) r
    → Written x value (write_value r value)
write_value-Written x r value h = record {
  entry = record {
    has_value = ground (arith, length-write_value r value h.grown);
    fits = ground (arith, length-write_value r value h.grown, h.room);
  };
  same = λ name. write_value-SameName r value h.grown name ∙ h.kept name;
  reads = get_value-write_value r value h.grown;
}

pub envstr_set_value-Written :
    (malloc : Malloc) (x y : Envstr) (value : Bytes)
    → IsEntry x
    → envstr_set_value malloc x value ≡ some y
    → Written x value y
unfolding envstr_set_value
envstr_set_value-Written malloc x y value h e =
    elim (Option-cases (envstr_resize_value malloc x (length value))) [
      | inl n ↦ absurd (ground (arith, e, n))
      | inr (r, k) ↦
          let same : some (write_value r value) ≡ some y =
            sym (rw (k, envstr_set_value) refl) ∙ e in
          subst (λ z. Written x value z) (some-injective (write_value r value) y same)
            (write_value-Written x r value
              (envstr_resize_value-Resized malloc x r (length value) h k))
    ]

abbrev new_entry : (name : Bytes) → Envstr
new_entry name = record {
  str = name ++ equal_sign ∷ [];
  namelen = length name;
  str_maxlen = length name + 64;
}

new_entry-IsEntry : (name : Bytes) → IsEntry (new_entry name)
new_entry-IsEntry name = record {
  has_value = ground (arith, length-append name (equal_sign ∷ []));
  fits = ground (arith, length-append name (equal_sign ∷ []));
}

new_entry-matches : (name : Bytes) → matches (new_entry name) name ≡ true
unfolding matches
new_entry-matches name =
    rw (take-length-append name (equal_sign ∷ []), bytes_eq_refl name) (ground arith)

pub envstr_init-IsEntry :
    (malloc : Malloc) (name : Bytes) (y : Envstr)
    → envstr_init malloc name ≡ some y
    → IsEntry y × (matches y name ≡ true) × (envstr_get_value y ≡ [])
unfolding envstr_init envstr_get_value
envstr_init-IsEntry malloc name y e = elim (Bool-cases (malloc string_buffer (length name + 64))) [
  | inr g ↦ absurd (ground (arith, e, g))
  | inl g ↦
      let same : some (new_entry name) ≡ some y = sym (rw (g, envstr_init) refl) ∙ e in
      subst (λ z. IsEntry z × (matches z name ≡ true) × (envstr_get_value z ≡ []))
        (some-injective (new_entry name) y same)
        (new_entry-IsEntry name, new_entry-matches name, drop-suc-length name equal_sign [])
]
