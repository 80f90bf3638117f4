-- ===== src/Row/Text.antt =====
-- derecho_row.cpp: the C string of a row, `char[50]`, against a `std::string`. Bytes are numbers.
use old_derecho.Base.{
  ℕ, zero, suc, ◌≤◌, ◌<◌, ◌≡◌, refl, ◌≢◌, ◌↔◌, ◌⊎◌, inl, inr, Bool, true, false, ◌&&◌, Option, none,
  some, List, [], ◌∷◌, arith, ltb, ◌==◌, if◌then◌else◌, Bool-cases, length, update,
}

-- using cstring = char[50]
abbrev pub cstring_size : ℕ
cstring_size = 50

-- What `c_str()` shows: the bytes before the first NUL.
unfoldable pub c_str : List ℕ → List ℕ
c_str [] = []
c_str (c ∷ s) = let rest = c_str s in if c == 0 then [] else c ∷ rest

-- The bytes of `s` from index i on, then a NUL.
unfoldable pub write_from : ℕ → List ℕ → (ℕ → ℕ) → ℕ → ℕ
write_from i [] e = update e i 0
write_from i (c ∷ s) e = update (write_from (suc i) s e) i c

-- set(element, value): strcpy, which is undefined where the copy and its NUL exceed the array.
unfoldable pub set_cstring : (ℕ → ℕ) → List ℕ → Option (ℕ → ℕ)
unfolding write_from c_str
set_cstring e value =
    if ltb (length (c_str value)) cstring_size then some (write_from 0 (c_str value) e) else none

-- std::string(element): the bytes up to the first NUL, within the array.
unfoldable pub read_from : ℕ → ℕ → (ℕ → ℕ) → List ℕ
read_from zero i e = []
read_from (suc n) i e = let rest = read_from n (suc i) e in if e i == 0 then [] else e i ∷ rest

abbrev pub to_string : (ℕ → ℕ) → List ℕ
to_string e = read_from cstring_size 0 e

unfoldable pub bytes_eq : List ℕ → List ℕ → Bool
bytes_eq [] [] = true
bytes_eq [] (d ∷ t) = false
bytes_eq (c ∷ s) [] = false
bytes_eq (c ∷ s) (d ∷ t) = c == d && bytes_eq s t

-- equals(element, value): strcmp
unfoldable pub equals : (ℕ → ℕ) → List ℕ → Bool
equals e value = bytes_eq (to_string e) (c_str value)

-- No NUL inside.
abbrev pub IsText : List ℕ → Type 0
IsText [] = Unit {0}
IsText (c ∷ s) = (c ≢ 0) × IsText s

pub c_str-IsText : (s : List ℕ) → IsText (c_str s)
unfolding c_str
c_str-IsText [] = tt
c_str-IsText (c ∷ s) = ground (arith, c_str-IsText s)

pub c_str_of_IsText : (s : List ℕ) → IsText s → c_str s ≡ s
unfolding c_str
c_str_of_IsText [] h = refl
c_str_of_IsText (c ∷ s) h = ground (arith, c_str_of_IsText s h.1)

pub bytes_eq_iff : (s t : List ℕ) → (bytes_eq s t ≡ true) ↔ (s ≡ t)
unfolding bytes_eq
bytes_eq_iff [] [] = ground arith
bytes_eq_iff [] (d ∷ t) = ground arith
bytes_eq_iff (c ∷ s) [] = ground arith
bytes_eq_iff (c ∷ s) (d ∷ t) = ground (arith, bytes_eq_iff s t)

-- Below the place where the copy starts nothing changes.
write_from_below : (i : ℕ) (s : List ℕ) (e : ℕ → ℕ) (j : ℕ) → j < i → write_from i s e j ≡ e j
unfolding write_from
write_from_below i [] e j h = ground arith
write_from_below i (c ∷ s) e j h = ground (arith, write_from_below (suc i) s e j)

read_from_ext :
    (n i : ℕ) (e f : ℕ → ℕ) → ((j : ℕ) → i ≤ j → e j ≡ f j) → read_from n i e ≡ read_from n i f
unfolding read_from
read_from_ext zero i e f h = refl
read_from_ext (suc n) i e f h =
    ground (arith, h i (omega arith), read_from_ext n (suc i) e f (λ j le. h j (omega arith)))

read_from-write_from :
    (n i : ℕ) (s : List ℕ) (e : ℕ → ℕ)
    → IsText s
    → length s < n
    → read_from n i (write_from i s e) ≡ s
unfolding read_from write_from
read_from-write_from zero i s e t h = absurd (omega arith)
read_from-write_from (suc n) i [] e t h = ground arith
read_from-write_from (suc n) i (c ∷ s) e t h = ground (
  arith,
  read_from-write_from n (suc i) s e t.1,
  read_from_ext n (suc i) (update (write_from (suc i) s e) i c) (write_from (suc i) s e)
      (λ j le. ground arith),
)

-- A string without NUL that fits is read back as it was set, whatever the array held before, and
-- one of 50 bytes or more is a fault.
pub set_cstring-to_string :
    (e : ℕ → ℕ) (s : List ℕ)
    → IsText s
    → ((length s < cstring_size) × ((f : ℕ → ℕ) × (set_cstring e s ≡ some f) × (to_string f ≡ s))
        ⊎ (cstring_size ≤ length s) × (set_cstring e s ≡ none))
unfolding set_cstring
set_cstring-to_string e s t = elim (Bool-cases (ltb (length s) cstring_size)) [
  | inl fits ↦ inl (
    ground arith,
    (
      write_from 0 s e,
      rw (c_str_of_IsText s t, fits),
      read_from-write_from cstring_size 0 s e t (ground arith),
    ),
  )
  | inr long ↦ inr (ground arith, rw (c_str_of_IsText s t, long))
]

-- After a set, `equals` holds of exactly the strings with the same bytes before the first NUL.
pub equals-set_cstring :
    (e f : ℕ → ℕ) (s t : List ℕ)
    → set_cstring e s ≡ some f
    → (equals f t ≡ true) ↔ (c_str s ≡ c_str t)
unfolding set_cstring equals
equals-set_cstring e f s t h = elim (Bool-cases (ltb (length (c_str s)) cstring_size)) [
  | inl fits ↦
      let same : write_from 0 (c_str s) e ≡ f = ground arith in
      let back : to_string f ≡ c_str s =
        rw (← same)
          (read_from-write_from cstring_size 0 (c_str s) e (c_str-IsText s) (ground arith)) in
      rw back (bytes_eq_iff (c_str s) (c_str t))
  | inr long ↦ absurd (ground arith)
]
