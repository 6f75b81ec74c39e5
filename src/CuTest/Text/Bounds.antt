-- ===== src/CuTest/Text/Bounds.antt =====
-- No operation of the growing string writes past its allocation.
use memory_mutation_testing.Base.{
  ℕ, zero, suc, ◌+◌, ◌<◌, ◌≡◌, refl, ap, [], ◌∷◌, ◌++◌, Option, arith, length, take, drop,
  length-append, ltb, if◌then◌else◌,
}
use memory_mutation_testing.Base.Text.{Bytes}
use memory_mutation_testing.CuTest.Text.{
  CuString, cu_string_init, ensure_room, text_or_null, cu_string_append, cu_string_insert,
}

-- `length` is the length of the text, and the text and its NUL fit the allocation.
pub record IsTerminated (str : CuString) : Type 0 where
  pub measured : length str.buffer ≡ str.length
  pub fits : str.length < str.size

pub cu_string_init-IsTerminated : IsTerminated cu_string_init
unfolding cu_string_init
cu_string_init-IsTerminated = record { measured = refl; fits = omega arith }

length-take-drop : (n : ℕ) (xs : Bytes) → length (take n xs) + length (drop n xs) ≡ length xs
length-take-drop zero xs = omega arith
length-take-drop (suc n) [] = omega arith
length-take-drop (suc n) (x ∷ xs) = omega (arith, length-take-drop n xs)

-- After an append to a string that is terminated within its allocation, the text is the old text
-- and then the new one, with its length recorded, and text and NUL fit the allocation.
pub cu_string_append_lem :
    (str : CuString) (text : Option Bytes)
    → IsTerminated str
    → IsTerminated (cu_string_append str text)
      × ((cu_string_append str text).buffer ≡ str.buffer ++ text_or_null text)
unfolding cu_string_append
cu_string_append_lem str text h =
    (ground (arith, length-append str.buffer (text_or_null text)), ground arith)

length-splice :
    (n : ℕ) (xs ys : Bytes) → length (take n xs ++ (ys ++ drop n xs)) ≡ length xs + length ys
length-splice n xs ys = omega (
  arith,
  length-append (take n xs) (ys ++ drop n xs),
  length-append ys (drop n xs),
  length-take-drop n xs,
)

ensure_room_lem :
    (str : CuString) (n : ℕ)
    → str.length < str.size
    → (str.length + n < (ensure_room str n).size)
      × ((ensure_room str n).length ≡ str.length)
      × ((ensure_room str n).buffer ≡ str.buffer)
unfolding ensure_room
ensure_room_lem str n h = (ground arith, ground arith, ground arith)

at_start : (n : ℕ) → (if ltb n 0 then n else 0) ≡ 0
at_start n = ground arith

-- After an insertion into a string that is terminated within its allocation, text and NUL fit the
-- allocation, and the length is recorded; inserted at the start, the new text stands in front of
-- the old one.
pub cu_string_insert_lem :
    (str : CuString) (text : Bytes) (pos : ℕ)
    → IsTerminated str
    → IsTerminated (cu_string_insert str text pos)
      × ((cu_string_insert str text 0).buffer ≡ text ++ str.buffer)
unfolding cu_string_insert
cu_string_insert_lem str text pos h =
    let room = ensure_room_lem str (length text) h.fits in
    (
      record {
        measured = rw (room.2, length-splice, room.1) (ap (λ n. n + length text) h.measured);
        fits = rw room.1 room.0;
      },
      rw (room.2, at_start str.length) refl,
    )
