-- ===== src/Lexer/Source/Lossless.antt =====
-- The texts of a source's tokens make up the source.
use typenative.Prelude.{
  ℕ, zero, suc, ◌+◌, ◌≤◌, List, [], ◌∷◌, ◌++◌, String, ◌≡◌, refl, sym, ap, ◌∙◌, arith, length,
  append-nil, take, drop,
}
use typenative.Lexer.Tokens.{Range, Token}
use typenative.Lexer.Scan.{Bytes}
use typenative.Lexer.Source.{Match, Lexed, lexed, lex_source}
use typenative.Lexer.Source.Covers.{IsMatcher, Covers}
use typenative.Lexer.Source.Total.{lex_source_total}

-- `&source[range]`
abbrev pub slice : Bytes → Range → Bytes
slice source r = drop r.first (take r.past source)

-- the texts of the tokens, one after the other
abbrev pub texts : Bytes → List Token → Bytes
texts source [] = []
texts source (t ∷ ts) = slice source t.range ++ texts source ts

take_all : (bytes : Bytes) → take (length bytes) bytes ≡ bytes
take_all [] = refl
take_all (b ∷ bytes) = ap (λ bs. b ∷ bs) (take_all bytes)

drop_all : (i : ℕ) (bytes : Bytes) → drop i (take i bytes) ≡ []
drop_all zero bytes = refl
drop_all (suc i) [] = refl
drop_all (suc i) (b ∷ bytes) = drop_all i bytes

-- two adjoining slices
take-split :
    (k j : ℕ) (bytes : Bytes) → k ≤ j → take k bytes ++ drop k (take j bytes) ≡ take j bytes
take-split zero j bytes h = refl
take-split (suc k) zero bytes h = absurd (omega (arith, h))
take-split (suc k) (suc j) [] h = refl
take-split (suc k) (suc j) (b ∷ bytes) h =
    ap (λ bs. b ∷ bs) (take-split k j bytes (omega (arith, h)))

drop-split :
    (i k j : ℕ) (bytes : Bytes)
    → i ≤ k
    → k ≤ j
    → drop i (take k bytes) ++ drop k (take j bytes) ≡ drop i (take j bytes)
drop-split zero k j bytes h l = take-split k j bytes l
drop-split (suc i) zero j bytes h l = absurd (omega (arith, h))
drop-split (suc i) (suc k) zero bytes h l = absurd (omega (arith, l))
drop-split (suc i) (suc k) (suc j) [] h l = refl
drop-split (suc i) (suc k) (suc j) (b ∷ bytes) h l =
    drop-split i k j bytes (omega (arith, h)) (omega (arith, l))

Covers-le : (i : ℕ) (ts : List Token) (j : ℕ) → Covers i ts j → i ≤ j
Covers-le i [] j c = omega (arith, c)
Covers-le i (t ∷ ts) j (first, more, c) = omega (arith, more, Covers-le t.range.past ts j c)

texts-Covers :
    (source : Bytes) (i : ℕ) (ts : List Token) (j : ℕ)
    → Covers i ts j
    → texts source ts ≡ drop i (take j source)
texts-Covers source i [] j c = sym (drop_all i source) ∙ ap (λ k. drop i (take k source)) c
texts-Covers source i (t ∷ ts) j (first, more, c) =
    ap (λ bs. slice source t.range ++ bs) (texts-Covers source t.range.past ts j c)
    ∙ ap (λ k. drop k (take t.range.past source) ++ drop t.range.past (take j source)) first
    ∙ drop-split i t.range.past j source (omega (arith, more)) (Covers-le t.range.past ts j c)

-- For a matcher that takes a byte at least and no more than there are, the texts of the tokens that the lexer finds in a
-- source are together the source.
pub texts-lex_source :
    (matcher : Bytes → Match)
    → IsMatcher matcher
    → (file : String) (source : Bytes)
    → (r : Lexed) × (lex_source matcher file source source 0 ≡ lexed r)
      × (texts source r.tokens ≡ source)
texts-lex_source matcher law file source =
    let (r, e, c) =
      lex_source_total matcher law file source [] source [] (sym (append-nil source)) in
    (
      r,
      e,
      texts-Covers source 0 r.tokens (0 + length source) c
          ∙ ap (λ n. take n source) (omega arith)
          ∙ take_all source,
    )
