-- ===== src/Base/Strings.antt =====
-- Go strings as lists of code points, with the functions of `strings` that the program calls.
use Prim.Native.Nat.{ℕ, ◌+◌, ◌-◌}
use Prim.Native.Char.{code}
use Prim.Native.String.{String}
use mathlib.Core.Path.{◌≡◌, refl}
use mathlib.Core.Bool.{Bool, true, false, ◌&&◌}
use mathlib.Core.List.{List, [], ◌∷◌, ◌++◌}
use native.Mathlib.Omega.{arith}
use mocktrue.Base.Tests.{leb, ◌==◌, ==_refl, if◌then◌else◌}
use mocktrue.Base.Lists.{length, take, drop, length-append, take-append, drop-append}

abbrev pub Text : Type 0
Text = List ℕ

abbrev pub codes : String → Text
codes String.[] = []
codes (String.◌∷◌ c s) = code c ∷ codes s

unfoldable pub text_eq : Text → Text → Bool
text_eq [] [] = true
text_eq [] (_ ∷ _) = false
text_eq (_ ∷ _) [] = false
text_eq (a ∷ s) (b ∷ t) = a == b && text_eq s t

-- `unicode.ToLower`, as far as a comparison with an ASCII word can see it: U+0130 and U+212A are
-- the only code points beyond ASCII whose lower case is ASCII.
unfoldable pub to_lower : ℕ → ℕ
to_lower c =
    if leb b'A' c && leb c b'Z'
    then c + 32
    else if c == 0x130
    then b'i'
    else if c == 0x212a
    then b'k'
    else c

-- `strings.ToUpper` of ASCII text.
unfoldable pub to_upper : ℕ → ℕ
to_upper c = if leb b'a' c && leb c b'z' then c - 32 else c

pub has_prefix : Text → Text → Bool
has_prefix s p = leb (length p) (length s) && text_eq (take (length p) s) p

pub has_suffix : Text → Text → Bool
has_suffix s p = leb (length p) (length s) && text_eq (drop (length s - length p) s) p

pub trim_prefix : Text → Text → Text
trim_prefix s p = if has_prefix s p then drop (length p) s else s

pub trim_suffix : Text → Text → Text
trim_suffix s p = if has_suffix s p then take (length s - length p) s else s

pub text_eq_refl : (s : Text) → text_eq s s ≡ true
unfolding text_eq
text_eq_refl [] = refl
text_eq_refl (a ∷ s) = ground (arith, text_eq_refl s)

pub text_eq→eq : (s t : Text) → text_eq s t ≡ true → s ≡ t
unfolding text_eq
text_eq→eq [] [] h = refl
text_eq→eq [] (b ∷ t) h = cc
text_eq→eq (a ∷ s) [] h = cc
text_eq→eq (a ∷ s) (b ∷ t) h = ground (arith, text_eq→eq s t)

suffix_start : (s p : Text) → length (s ++ p) - length p ≡ length s
suffix_start s p = omega (arith, length-append s p)

pub has_suffix-append : (s p : Text) → has_suffix (s ++ p) p ≡ true
unfolding has_suffix
has_suffix-append s p =
    rw (suffix_start s p, drop-append s p, text_eq_refl p) (ground (arith, length-append s p))

pub trim_suffix-append : (s p : Text) → trim_suffix (s ++ p) p ≡ s
unfolding trim_suffix
trim_suffix-append s p = rw (has_suffix-append s p, suffix_start s p) (take-append s p)

pub has_prefix-cons : (c : ℕ) (s : Text) → has_prefix (c ∷ s) (c ∷ []) ≡ true
unfolding has_prefix text_eq
has_prefix-cons c s = ground (arith, ==_refl c)

pub trim_prefix-cons : (c : ℕ) (s : Text) → trim_prefix (c ∷ s) (c ∷ []) ≡ s
unfolding trim_prefix
trim_prefix-cons c s = rw (has_prefix-cons c s)
