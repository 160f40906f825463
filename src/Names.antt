-- ===== src/Names.antt =====
-- Screen names: `imcomm_simplify_sn` and `imcomm_compare_nicks` of imcomm/imcomm.c, `simplify_sn` of
-- util.c, and the functions of the C library that they use, in the "C" locale. A name is the list
-- of its bytes, without the NUL.
pub mod Laws
use bsflite_otr.Base.{ℕ, ◌+◌, Bool, true, false, ◌&&◌, List, [], ◌∷◌, ltb, leb, ◌==◌, if◌then◌else◌}
use bsflite_otr.Session.{Text}

-- `strcmp(a, b) == 0` and `strcmp(a, b) < 0`.
unfoldable pub text_eq : Text → Text → Bool
text_eq [] [] = true
text_eq [] (b ∷ t) = false
text_eq (a ∷ s) [] = false
text_eq (a ∷ s) (b ∷ t) = (a == b) && text_eq s t

pub text_lt : Text → Text → Bool
text_lt [] [] = false
text_lt [] (b ∷ t) = true
text_lt (a ∷ s) [] = false
text_lt (a ∷ s) (b ∷ t) = if ltb a b then true else (a == b) && text_lt s t

-- The C string in memory that ends at the first NUL, or at the end of the memory.
unfoldable pub c_string : List ℕ → Text
c_string [] = []
c_string (b ∷ t) = if b == 0 then [] else b ∷ c_string t

unfoldable pub to_lower : ℕ → ℕ
to_lower c = if leb b'A' c && leb c b'Z' then c + 32 else c

-- `imcomm_simplify_sn` and `simplify_sn`: blanks are dropped, letters are made small.
unfoldable pub simplify_sn : Text → Text
unfolding to_lower
simplify_sn [] = []
simplify_sn (c ∷ u) = let rest = simplify_sn u in if c == b' ' then rest else to_lower c ∷ rest

-- `imcomm_compare_nicks`
unfoldable pub compare_nicks : Text → Text → Bool
compare_nicks a b = text_eq (simplify_sn a) (simplify_sn b)
