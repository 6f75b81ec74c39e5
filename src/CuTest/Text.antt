-- ===== src/CuTest/Text.antt =====
-- CuTest/CuTest.forked.c, lines 37 to 113: the growing string. `buffer` is the text before the NUL;
-- `size` is the number of bytes that are allocated.
pub mod Bounds
use memory_mutation_testing.Base.{
  ℕ, ◌+◌, [], ◌∷◌, ◌++◌, Option, none, some, if◌then◌else◌, leb, ltb, length, take, drop,
}
use memory_mutation_testing.Base.Text.{Bytes, codes}

abbrev pub string_max : ℕ
string_max = 256

abbrev pub huge_string_len : ℕ
huge_string_len = 8192

abbrev pub string_inc : ℕ
string_inc = 256

pub record CuString : Type 0 where
  pub length : ℕ
  pub size : ℕ
  pub buffer : Bytes

unfoldable pub cu_string_init : CuString
cu_string_init = record { length = 0; size = string_max; buffer = [] }

unfoldable pub cu_string_resize : CuString → ℕ → CuString
cu_string_resize str new_size = record str { size = new_size }

-- The test that `CuStringAppend` and `CuStringInsert` make before they write.
unfoldable pub ensure_room : CuString → ℕ → CuString
unfolding cu_string_resize
ensure_room str n =
    if leb str.size (str.length + n + 1)
    then cu_string_resize str (str.length + n + 1 + string_inc)
    else str

-- `none` is the null pointer.
abbrev pub text_or_null : Option Bytes → Bytes
text_or_null none = codes "NULL"
text_or_null (some text) = text

unfoldable pub cu_string_append : CuString → Option Bytes → CuString
unfolding ensure_room
cu_string_append str text =
    let t = text_or_null text in
    let roomy = ensure_room str (length t) in
    record roomy { length = roomy.length + length t; buffer = roomy.buffer ++ t }

unfoldable pub cu_string_append_char : CuString → ℕ → CuString
unfolding cu_string_append
cu_string_append_char str ch = cu_string_append str (some (ch ∷ []))

unfoldable pub cu_string_insert : CuString → Bytes → ℕ → CuString
unfolding ensure_room
cu_string_insert str text pos =
    let at = if ltb str.length pos then str.length else pos in
    let roomy = ensure_room str (length text) in
    record roomy {
      length = roomy.length + length text;
      buffer = take at roomy.buffer ++ (text ++ drop at roomy.buffer);
    }
