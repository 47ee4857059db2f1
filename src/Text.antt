-- ===== src/Text.antt =====
-- Texts as lists of code points, with the methods of Python's `str` that the program uses.
use Prim.Native.Char.{code}
use Prim.Native.String.{String}
use cubiczan_resilience.Base.{
  ℕ, ◌+◌, ◌≡◌, refl, Bool, true, false, ◌&&◌, ◌||◌, List, [], ◌∷◌, ◌++◌, leb, ◌==◌, if◌then◌else◌,
  arith,
}

abbrev pub Text : Type 0
Text = List ℕ

-- The code points of a literal.
abbrev pub codes : String → Text
codes String.[] = []
codes (String.◌∷◌ c s) = code c ∷ codes s

abbrev pub text_eq : Text → Text → Bool
text_eq [] [] = true
text_eq [] (_ ∷ _) = false
text_eq (_ ∷ _) [] = false
text_eq (c ∷ s) (d ∷ t) = (c == d) && text_eq s t

-- `str.lower` on the code points that it takes to an ASCII letter: A to Z, the Kelvin sign and the
-- dotted capital I, which becomes two code points. The others become no ASCII letter and stay here.
abbrev pub lower_char : ℕ → Text
lower_char c =
    if leb 65 c && leb c 90
    then (c + 32) ∷ []
    else if c == 8490
    then 107 ∷ []
    else if c == 304
    then 105 ∷ 775 ∷ []
    else c ∷ []

abbrev pub lower : Text → Text
lower [] = []
lower (c ∷ s) = lower_char c ++ lower s

abbrev pub starts_with : Text → Text → Bool
starts_with [] s = true
starts_with (_ ∷ _) [] = false
starts_with (c ∷ p) (d ∷ s) = (c == d) && starts_with p s

-- `p in s`.
abbrev pub occurs_in : Text → Text → Bool
occurs_in p [] = starts_with p []
occurs_in p (c ∷ s) = starts_with p (c ∷ s) || occurs_in p s

-- The white space of `str.strip`.
abbrev pub is_space : ℕ → Bool
is_space c =
    (leb 9 c && leb c 13)
    || (leb 28 c && leb c 32)
    || (c == 133)
    || (c == 160)
    || (c == 5760)
    || (leb 8192 c && leb c 8202)
    || (c == 8232)
    || (c == 8233)
    || (c == 8239)
    || (c == 8287)
    || (c == 12288)

-- `not s.strip()`.
abbrev pub is_blank : Text → Bool
is_blank [] = true
is_blank (c ∷ s) = is_space c && is_blank s

-- The breaks of `str.splitlines`; `read_text` has put `\n` in place of `\r\n` and `\r`.
abbrev pub is_break : ℕ → Bool
is_break c =
    (leb 10 c && leb c 13) || (leb 28 c && leb c 30) || (c == 133) || (c == 8232) || (c == 8233)

-- `str.splitlines`, with the part of a line that is read.
abbrev pub lines_from : Text → Text → List Text
lines_from [] [] = []
lines_from (c ∷ line) [] = (c ∷ line) ∷ []
lines_from line (c ∷ s) =
    let next = lines_from [] s in
    let more = lines_from (line ++ c ∷ []) s in if is_break c then line ∷ next else more

abbrev pub splitlines : Text → List Text
splitlines = lines_from []

abbrev pub newline : Text
newline = 10 ∷ []

pub text_eq_self : (s : Text) → text_eq s s ≡ true
text_eq_self [] = refl
text_eq_self (c ∷ s) = ground (arith, text_eq_self s)

pub text_eq-true : (s t : Text) → text_eq s t ≡ true → s ≡ t
text_eq-true [] [] h = refl
text_eq-true [] (d ∷ t) h = ground arith
text_eq-true (c ∷ s) [] h = ground arith
text_eq-true (c ∷ s) (d ∷ t) h = ground (arith, text_eq-true s t)
