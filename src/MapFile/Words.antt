-- ===== src/MapFile/Words.antt =====
-- Words of a line in the old style, and how the line is cut into them.
use device_access_opc_ua_bac.Prelude.{
  ℕ, ◌≡◌, refl, true, false, Text, ◌∷◌, [], ◌++◌, arith, All, All-map, ◌==◌, ap,
}
use device_access_opc_ua_bac.Prelude.Decimal.{to_decimal}
use device_access_opc_ua_bac.Prelude.Number
use device_access_opc_ua_bac.Prelude.Number.{
  stoul, is_digit, IsDigit, to_decimal_lem, stoul-to_decimal,
}
use device_access_opc_ua_bac.MapFile.Legacy.{
  add_char, lines, is_separator, split, drop_empty, tokens, is_skipped,
}

-- A character that ends neither a token nor a line.
abbrev pub IsPlain : ℕ → Type 0
IsPlain c = (is_separator c ≡ false) × ((c == b'\n') ≡ false)

-- One or more such characters, of which the first does not make the line a comment.
abbrev pub IsWord : Text → Type 0
IsWord [] = ⊥
IsWord (c ∷ s) = All IsPlain (c ∷ s) × (is_skipped (c ∷ s) ≡ false)

pub split-append :
    (w : Text) (c : ℕ) (rest : Text)
    → All IsPlain w
    → is_separator c ≡ true
    → split (w ++ (c ∷ rest)) ≡ w ∷ split rest
unfolding split
split-append [] c rest h k = rw k refl
split-append (d ∷ w) c rest h k = rw (h.0.0, split-append w c rest h.1 k) (unfold add_char in refl)

split_word : (w : Text) → All IsPlain w → split w ≡ w ∷ []
unfolding split
split_word [] h = refl
split_word (d ∷ w) h = rw (h.0.0, split_word w h.1) (unfold add_char in refl)

pub tokens-append :
    (w : Text) (c : ℕ) (rest : Text)
    → IsWord w
    → is_separator c ≡ true
    → tokens (w ++ (c ∷ rest)) ≡ w ∷ tokens rest
unfolding tokens
tokens-append [] c rest h k = absurd h
tokens-append (d ∷ w) c rest h k = ap drop_empty (split-append (d ∷ w) c rest h.0 k)

pub tokens_word : (w : Text) → IsWord w → tokens w ≡ w ∷ []
unfolding tokens
tokens_word [] h = absurd h
tokens_word (d ∷ w) h = ap drop_empty (split_word (d ∷ w) h.0)

pub lines-append :
    (l rest : Text)
    → All (λ c. (c == b'\n') ≡ false) l
    → lines (l ++ (b'\n' ∷ rest)) ≡ l ∷ lines rest
unfolding lines
lines-append [] rest h = refl
lines-append (c ∷ l) rest h = rw (h.0, lines-append l rest h.1) (unfold add_char in refl)

digit-IsPlain : (c : ℕ) → IsDigit c → IsPlain c × (is_skipped (c ∷ []) ≡ false)
unfolding is_digit is_separator is_skipped
digit-IsPlain c h = ground arith

numeral-IsWord : (s : Text) → All IsDigit s → Number.starts_with_digit s ≡ true → IsWord s
unfolding Number.starts_with_digit
numeral-IsWord [] h k = cc
numeral-IsWord (c ∷ s) h k = (
  ((digit-IsPlain c h.0).0, All-map IsDigit IsPlain (λ d p. (digit-IsPlain d p).0) s h.1),
  unfold is_skipped in (unfold is_skipped in (digit-IsPlain c h.0).1),
)

pub to_decimal-IsWord : (n : ℕ) → IsWord (to_decimal n)
to_decimal-IsWord n =
    let (shape, value) = to_decimal_lem n in numeral-IsWord (to_decimal n) shape.0 shape.1
