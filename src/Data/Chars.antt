-- ===== src/Data/Chars.antt =====
-- The character classes and string methods of JavaScript that the program uses, on code units.
use bpm_new.Common.{
  ℕ, Bool, true, false, ◌&&◌, ◌||◌, List, [], ◌∷◌, ◌++◌, Str, ◌==◌, leb, if◌then◌else◌,
}

abbrev pub is_digit : ℕ → Bool
is_digit c = leb b'0' c && leb c b'9'

-- [A-Za-z]
abbrev pub is_letter : ℕ → Bool
is_letter c = leb b'a' c && leb c b'z' || leb b'A' c && leb c b'Z'

-- \w, that is [A-Za-z0-9_]
unfoldable pub is_word : ℕ → Bool
is_word c = is_letter c || is_digit c || c == b'_'

-- \s, and what `trim` removes.
unfoldable pub is_space : ℕ → Bool
is_space c =
    leb 9 c && leb c 13
    || c == 32
    || c == 160
    || c == 5760
    || leb 8192 c && leb c 8202
    || c == 8232
    || c == 8233
    || c == 8239
    || c == 8287
    || c == 12288
    || c == 65279

unfoldable pub drop_while : (ℕ → Bool) → Str → Str
drop_while p [] = []
drop_while p (c ∷ s) = if p c then drop_while p s else c ∷ s

unfoldable pub take_while : (ℕ → Bool) → Str → Str
take_while p [] = []
take_while p (c ∷ s) = if p c then c ∷ take_while p s else []

-- `String.prototype.trim`: the end is trimmed where nothing but spaces follows.
unfoldable pub trim_end : Str → Str
trim_end [] = []
trim_end (c ∷ s) = trim_cons c (trim_end s)
  where
    trim_cons : ℕ → Str → Str
    trim_cons c [] = if is_space c then [] else c ∷ []
    trim_cons c (d ∷ t) = c ∷ d ∷ t

unfoldable pub trim : Str → Str
unfolding drop_while trim_end is_space
trim s = trim_end (drop_while is_space s)

abbrev pub is_empty : Str → Bool
is_empty [] = true
is_empty (_ ∷ _) = false

abbrev pub all : (ℕ → Bool) → Str → Bool
all p [] = true
all p (c ∷ s) = p c && all p s

abbrev pub starts_with : Str → Str → Bool
starts_with [] s = true
starts_with (a ∷ t) [] = false
starts_with (a ∷ t) (c ∷ s) = c == a && starts_with t s

-- The maximal runs of word characters. A keyword between two `\b` is such a run.
unfoldable pub words_from : Str → Str → List Str
words_from run [] = if is_empty run then [] else run ∷ []
words_from run (c ∷ s) =
    let inside = words_from (run ++ c ∷ []) s in
    let outside = words_from [] s in
    if is_word c then inside else (if is_empty run then outside else run ∷ outside)

unfoldable pub words : Str → List Str
unfolding words_from is_word
words s = words_from [] s
