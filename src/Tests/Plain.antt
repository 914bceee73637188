-- ===== src/Tests/Plain.antt =====
-- Simple functions for the code that the program takes from libraries.
use fidinventor.Base.{
  ℕ, ◌≡◌, refl, ap, ◌∙◌, true, ◌&&◌, some, List, [], ◌∷◌, ◌++◌, ◌==◌, if◌then◌else◌, arith,
}
use fidinventor.Base.Text.{Bytes, codes, is_space, skip_space, is_empty, strtoll}
use fidinventor.Base.Boost.{StringAlgo, Lacks, StartsBare, EndsBare, lower}
use fidinventor.Json.Value.{Floats, int, Fields, obj, JsonText}

abbrev put_first : ℕ → List Bytes → List Bytes
put_first c [] = (c ∷ []) ∷ []
put_first c (p ∷ ps) = (c ∷ p) ∷ ps

abbrev pub split_space : Bytes → List Bytes
split_space [] = [] ∷ []
split_space (c ∷ s) = let rest = split_space s in if c == b' ' then [] ∷ rest else put_first c rest

abbrev pub trim_end : Bytes → Bytes
trim_end [] = []
trim_end (c ∷ s) = let rest = trim_end s in if is_empty rest && is_space c then [] else c ∷ rest

abbrev pub lower_all : Bytes → Bytes
lower_all [] = []
lower_all (c ∷ s) = lower c ∷ lower_all s

pub split_space-Lacks : (s : Bytes) → Lacks b' ' s → split_space s ≡ s ∷ []
split_space-Lacks [] h = refl
split_space-Lacks (c ∷ s) (hc, hs) = rw (split_space-Lacks s hs) (ground arith)

pub split_space-append :
    (s t : Bytes) → Lacks b' ' s → split_space (s ++ b' ' ∷ t) ≡ s ∷ split_space t
split_space-append [] t h = refl
split_space-append (c ∷ s) t (hc, hs) = rw (split_space-append s t hs) (ground arith)

pub skip-bare : (s : Bytes) → StartsBare s → skip_space s ≡ s
unfolding skip_space
skip-bare [] h = refl
skip-bare (c ∷ s) h = ap (λ b. if b then skip_space s else c ∷ s) h

pub trim_end-bare : (s : Bytes) → EndsBare s → trim_end s ≡ s
trim_end-bare [] h = refl
trim_end-bare (c ∷ []) h = ap (λ b. if b then [] else c ∷ []) h
trim_end-bare (c ∷ d ∷ s) h =
    ap (λ (r : Bytes). if is_empty r && is_space c then [] else c ∷ r) (trim_end-bare (d ∷ s) h)

pub trim_end-back : (s : Bytes) (c : ℕ) → is_space c ≡ true → trim_end (s ++ c ∷ []) ≡ trim_end s
trim_end-back [] c h = ap (λ b. if b then [] else c ∷ []) h
trim_end-back (d ∷ s) c h =
    ap (λ (r : Bytes). if is_empty r && is_space d then [] else d ∷ r) (trim_end-back s c h)

pub skip-front :
    (r : Bytes) (c : ℕ)
    → is_space c ≡ true
    → skip_space (if is_empty r && is_space c then [] else c ∷ r) ≡ skip_space r
unfolding skip_space
skip-front [] c h = ap (λ b. skip_space (if b then [] else c ∷ [])) h
skip-front (d ∷ r) c h = ap (λ b. if b then skip_space (d ∷ r) else c ∷ d ∷ r) h

abbrev pub plain_algo : StringAlgo
plain_algo = record {
  split = split_space;
  trim = λ s. skip_space (trim_end s);
  to_lower = lower_all;
  split-Lacks = split_space-Lacks;
  split-append = split_space-append;
  trim-bare = λ s h k. ap skip_space (trim_end-bare s k) ∙ skip-bare s h;
  trim-front = λ c s h. skip-front (trim_end s) c h;
  trim-back = λ s c h. ap skip_space (trim_end-back s c h);
  to_lower-nil = refl;
  to_lower-cons = λ c s. refl;
}

-- Natural numbers in the place of `double`.
abbrev pub whole : Floats
whole = record { Float = ℕ; zero = 0; is_zero = λ n. n == 0; is_zero-zero = refl }

-- Texts of numbers are read, and everything is written as one text.
abbrev pub number_text : JsonText ℕ
number_text = record {
  read_string = λ s. some (int (strtoll s));
  write_string = λ v pretty. codes "{}";
}

-- The texts of one object.
abbrev pub text_of : Fields ℕ → JsonText ℕ
text_of fs = record { read_string = λ s. some (obj fs); write_string = λ v pretty. codes "{}" }
