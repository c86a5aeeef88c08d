-- ===== src/Bytes.antt =====
-- The C string and memory routines that the storage code calls, over lists of bytes. A pointer into a
-- buffer is the rest of the buffer from there.
pub mod Laws
pub mod Order
use Prim.Native.Char.{code}
use Prim.Native.String.{String}
use data_agent_demo.Prelude.{
  ℕ, zero, suc, ◌+◌, ◌≡◌, refl, Bool, List, [], ◌∷◌, ◌++◌, leb, ltb, ◌==◌, if◌then◌else◌, length,
  take, drop, replicate,
}
use data_agent_demo.Run.{Fault, out_of_bounds, Run, ok, fault, check, ◌>>=◌, ◌>>◌}

abbrev pub Bytes : Type 0
Bytes = List ℕ

-- `s.c_str ()` as a C string: the bytes of `s` before the first NUL.
unfoldable pub c_str : Bytes → Bytes
c_str [] = []
c_str (c ∷ s) = let rest = c_str s in if c == 0 then [] else c ∷ rest

-- The C string at a pointer. With no NUL in the rest of the buffer the read runs over its end.
unfoldable pub c_string : Bytes → Run Bytes
c_string [] = fault out_of_bounds
c_string (c ∷ s) =
    let rest = c_string s in if c == 0 then ok [] else (do text ← rest; ok (c ∷ text))

-- The sign of `strcmp`, over texts with no terminator.
pub data Sign : Type 0 where
  negative equal positive : Sign

unfoldable pub strcmp : Bytes → Bytes → Sign
strcmp [] [] = equal
strcmp [] (b ∷ bs) = negative
strcmp (a ∷ as') [] = positive
strcmp (a ∷ as') (b ∷ bs) =
    let rest = strcmp as' bs in if ltb a b then negative else if ltb b a then positive else rest

-- `strncpy (buf, s, n)`: at most `n` bytes of the text, and NULs up to `n`.
unfoldable pub strncpy : ℕ → Bytes → Bytes
strncpy zero s = []
strncpy (suc n) [] = 0 ∷ strncpy n []
strncpy (suc n) (c ∷ s) = c ∷ strncpy n s

-- `char buf[n + 1] = {0}; strncpy (buf, s.c_str (), n)`
unfoldable pub text_buffer : ℕ → Bytes → Bytes
unfolding c_str strncpy
text_buffer n s = strncpy n (c_str s) ++ 0 ∷ []

-- `memcpy (&buf[pos], src, n)`: outside either buffer it is undefined.
unfoldable pub memcpy_at : Bytes → ℕ → Bytes → ℕ → Run Bytes
memcpy_at buf pos src n =
    if leb (pos + n) (length buf)
    then (if leb n (length src)
        then ok (take pos buf ++ (take n src ++ drop (pos + n) buf))
        else fault out_of_bounds)
    else fault out_of_bounds

-- The bytes of an ASCII text.
abbrev pub codes : String → Bytes
codes String.[] = []
codes (String.◌∷◌ c s) = code c ∷ codes s
