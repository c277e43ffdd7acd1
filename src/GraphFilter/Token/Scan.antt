-- ===== src/GraphFilter/Token/Scan.antt =====
-- String literals and words, as graph_filter.go scans them.
use mocktrue.Base.{ℕ, ◌≡◌, refl, ap, [], ◌∷◌, ◌++◌, Bool, true, false, All}
use mocktrue.Base.{Text, ok, arith, Bool-cases, inl, inr, ◌==◌, ◌||◌}
use mocktrue.GraphFilter.Token.Render.{escape}
use mocktrue.GraphFilter.Token.{span, scan_string, put_byte, unescape}

pub span-append :
    (p : ℕ → Bool) (xs ys : Text)
    → All (λ d. p d ≡ true) xs
    → p 32 ≡ false
    → span p (xs ++ (32 ∷ ys)) ≡ (xs, 32 ∷ ys)
unfolding span
span-append p [] ys h e = rw e refl
span-append p (x ∷ xs) ys h e = rw (h.0, span-append p xs ys h.1 e) refl

scan_plain :
    (c : ℕ) (s : Text)
    → (c == b'"') ≡ false
    → (c == 92) ≡ false
    → scan_string (c ∷ s) ≡ put_byte c (scan_string s)
unfolding scan_string
scan_plain c [] q b = rw q refl
scan_plain c (d ∷ s) q b = rw (q, b) refl

scan_escaped : (d : ℕ) (s : Text) → scan_string (92 ∷ d ∷ s) ≡ put_byte (unescape d) (scan_string s)
unfolding scan_string
scan_escaped d s = refl

unescape_self : (c : ℕ) → (c == b'"' || c == 92) ≡ true → unescape c ≡ c
unfolding unescape
unescape_self c h = ground arith

same : (a b : ℕ) → (a == b) ≡ true → b ≡ a
same a b h = ground arith

special : (c : ℕ) → (c == b'"' || c == 92) ≡ false → ((c == b'"') ≡ false) × ((c == 92) ≡ false)
special c h = ground arith

put : (cs rest : Text) (d c : ℕ) → d ≡ c → put_byte d (ok (cs, 32 ∷ rest)) ≡ ok (c ∷ cs, 32 ∷ rest)
put cs rest d c e = ap (λ x. ok (x ∷ cs, 32 ∷ rest)) e

pub scan_string-escape :
    (v rest : Text) → scan_string (escape v ++ (b'"' ∷ 32 ∷ rest)) ≡ ok (v, 32 ∷ rest)
unfolding scan_string escape unescape
scan_string-escape [] rest = refl
scan_string-escape (c ∷ cs) rest =
    let behind = escape cs ++ (b'"' ∷ 32 ∷ rest) in
    let ih = scan_string-escape cs rest in
    elim (Bool-cases (c == b'"' || c == 92)) [
      | inl q ↦ rw (q, scan_escaped c behind, ih) (put cs rest (unescape c) c (unescape_self c q))
      | inr q ↦ elim (Bool-cases (c == 10)) [
        | inl n ↦ rw (q, n, scan_escaped b'n' behind, ih) (put cs rest 10 c (same c 10 n))
        | inr n ↦ elim (Bool-cases (c == 13)) [
          | inl r ↦ rw (q, n, r, scan_escaped b'r' behind, ih) (put cs rest 13 c (same c 13 r))
          | inr r ↦ elim (Bool-cases (c == 9)) [
            | inl t ↦ rw (q, n, r, t, scan_escaped b't' behind, ih) (put cs rest 9 c (same c 9 t))
            | inr t ↦ rw (q, n, r, t, scan_plain c behind (special c q).0 (special c q).1, ih) refl
          ]
        ]
      ]
    ]
