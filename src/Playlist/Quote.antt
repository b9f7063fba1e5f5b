-- ===== src/Playlist/Quote.antt =====
-- `quote` of internal/playlist/render.go and `Quote` of internal/config/render.go, one rule in two
-- places, over the code points of a valid text. `read` is the basic string of the TOML
-- specification, without the escapes \b, \f, \e and \U that the writer does not use.
use portapixel.Prelude.{
  ℕ, zero, suc, ◌+◌, ◌-◌, ◌*◌, ◌/◌, ◌%◌, ◌<◌, ◌≡◌, refl, sym, ap, ◌∙◌, arith, inl, inr, Bool, true,
  false, ◌&&◌, ◌||◌, Option, none, some, List, [], ◌∷◌, ◌++◌, ltb, leb, ◌==◌, ==_iff, get_or,
  is_digit, if-case, if◌then◌else◌, Bool-cases, Bytes, bytes,
}
use mathlib.Core.List.{append_assoc}

abbrev pub quotation : ℕ
quotation = b'"'

abbrev pub backslash : ℕ
backslash = b'\\'

abbrev pub hex_digits : Bytes
hex_digits = bytes "0123456789abcdef"

-- A character that TOML wants as an escape without a letter of its own.
abbrev pub is_control : ℕ → Bool
is_control r = ltb r 0x20 || r == 0x7f

unfoldable pub quote_char : ℕ → List ℕ
quote_char r =
    if r == quotation
    then backslash ∷ quotation ∷ []
    else if r == backslash
    then backslash ∷ backslash ∷ []
    else if r == 0x09
    then backslash ∷ b't' ∷ []
    else if r == 0x0a
    then backslash ∷ b'n' ∷ []
    else if r == 0x0d
    then backslash ∷ b'r' ∷ []
    else if is_control r
    then backslash
      ∷ b'u'
      ∷ b'0'
      ∷ b'0'
      ∷ get_or hex_digits (r / 16 % 16) 0
      ∷ get_or hex_digits (r % 16) 0
      ∷ []
    else r ∷ []

unfoldable pub quote_chars : List ℕ → List ℕ
quote_chars [] = []
quote_chars (r ∷ rs) = quote_char r ++ quote_chars rs

unfoldable pub quote : List ℕ → List ℕ
quote s = quotation ∷ (quote_chars s ++ quotation ∷ [])

-- Where the reader is: between characters, after a backslash, or inside the digits of a code.
pub data At : Type 0 where
  between after_backslash : At
  in_code : ℕ → ℕ → At

pub data Move : Type 0 where
  ended wrong : Move
  goes : At → Move
  gives : ℕ → Move

unfoldable pub hex_value : ℕ → Option ℕ
hex_value c =
    if is_digit c
    then some (c - b'0')
    else if leb b'a' c && leb c b'f'
    then some (c - b'a' + 10)
    else none

abbrev pub code_move : ℕ → ℕ → Option ℕ → Move
code_move left code none = wrong
code_move zero code (some v) = wrong
code_move (suc zero) code (some v) = gives (code * 16 + v)
code_move (suc (suc left)) code (some v) = goes (in_code (suc left) (code * 16 + v))

unfoldable pub turn : At → ℕ → Move
turn between c =
    if c == quotation
    then ended
    else if c == backslash
    then goes after_backslash
    else if is_control c
    then wrong
    else gives c
turn after_backslash c =
    if c == quotation
    then gives quotation
    else if c == backslash
    then gives backslash
    else if c == b't'
    then gives 0x09
    else if c == b'n'
    then gives 0x0a
    else if c == b'r'
    then gives 0x0d
    else if c == b'u'
    then goes (in_code 4 0)
    else wrong
turn (in_code left code) c = code_move left code (hex_value c)

abbrev onto : ℕ → Option (List ℕ × List ℕ) → Option (List ℕ × List ℕ)
onto c none = none
onto c (some (text, rest)) = some (c ∷ text, rest)

abbrev follow : Move → List ℕ → (At → Option (List ℕ × List ℕ)) → Option (List ℕ × List ℕ)
follow ended cs read_on = some ([], cs)
follow wrong cs read_on = none
follow (goes place) cs read_on = read_on place
follow (gives c) cs read_on = onto c (read_on between)

-- The text of the string, and what follows it.
unfoldable pub read_from : List ℕ → At → Option (List ℕ × List ℕ)
read_from [] place = none
read_from (c ∷ cs) place = follow (turn place c) cs (read_from cs)

abbrev pub read_opened : Option (List ℕ) → Option (List ℕ × List ℕ)
read_opened none = none
read_opened (some cs) = read_from cs between

abbrev pub opened : List ℕ → Option (List ℕ)
opened [] = none
opened (c ∷ cs) = if c == quotation then some cs else none

unfoldable pub read : List ℕ → Option (List ℕ × List ℕ)
read text = read_opened (opened text)

-- A test that holds below a bound.
abbrev all_below : ℕ → (ℕ → Bool) → Bool
all_below zero test = true
all_below (suc n) test = test n && all_below n test

all_below-lt : (n d : ℕ) (test : ℕ → Bool) → all_below n test ≡ true → d < n → test d ≡ true
all_below-lt zero d test h below = absurd (omega (arith, below))
all_below-lt (suc n) d test h below = elim (Bool-cases (d == n)) [
  | inl e ↦ let same : d ≡ n = (==_iff d n).0 e in rw same (ground (arith, h))
  | inr e ↦ all_below-lt n d test (ground (arith, h)) (ground (arith, e, below))
]

abbrev has_value : Option ℕ → ℕ → Bool
has_value none d = false
has_value (some v) d = v == d

has_value-eq : (o : Option ℕ) (d : ℕ) → has_value o d ≡ true → o ≡ some d
has_value-eq none d h = absurd (cc)
has_value-eq (some v) d h = ap some ((==_iff v d).0 h)

hex_value-digit : (d : ℕ) → d < 16 → hex_value (get_or hex_digits d 0) ≡ some d
unfolding hex_value
hex_value-digit d below =
    has_value-eq _ d
      (all_below-lt 16 d (λ k. has_value (hex_value (get_or hex_digits k 0)) k) refl below)

-- The code of a control character, from its two digits.
code_of-control : (r : ℕ) → is_control r ≡ true → (0 + r / 16 % 16) * 16 + r % 16 ≡ r
code_of-control r h = ground arith

read_from-code :
    (r : ℕ) (cs : List ℕ)
    → is_control r ≡ true
    → read_from
        (backslash
          ∷ b'u'
          ∷ b'0'
          ∷ b'0'
          ∷ get_or hex_digits (r / 16 % 16) 0
          ∷ get_or hex_digits (r % 16) 0
          ∷ cs)
        between
      ≡ onto r (read_from cs between)
unfolding read_from turn hex_value
read_from-code r cs h =
    let high = hex_value-digit (r / 16 % 16) (omega arith) in
    let low = hex_value-digit (r % 16) (omega arith) in
    rw (high, low) (ap (λ c. onto c (read_from cs between)) (code_of-control r h))

-- What the writer makes of a character is read back as it.
read_from-quote_char :
    (r : ℕ) (cs : List ℕ) → read_from (quote_char r ++ cs) between ≡ onto r (read_from cs between)
unfolding read_from quote_char turn
read_from-quote_char r cs =
    let P : List ℕ → Type 0 = λ q. read_from (q ++ cs) between ≡ onto r (read_from cs between) in
    let named : (c : ℕ)
        → (r == c) ≡ true
        → onto c (read_from cs between) ≡ onto r (read_from cs between) =
      λ c e. ap (λ k. onto k (read_from cs between)) (sym ((==_iff r c).0 e)) in
    if-case P (r == quotation) _ _ (named quotation) (λ q.
      if-case P (r == backslash) _ _ (named backslash) (λ b.
        if-case P (r == 0x09) _ _ (named 0x09) (λ t. if-case P (r == 0x0a) _ _ (named 0x0a) (λ n.
          if-case P (r == 0x0d) _ _ (named 0x0d) (λ c.
            if-case P (is_control r) _ _ (λ e. read_from-code r cs e) (λ e. rw (q, b, e) refl))))))

read_from-quote_chars :
    (s rest : List ℕ) → read_from (quote_chars s ++ (quotation ∷ rest)) between ≡ some (s, rest)
unfolding quote_chars read_from turn
read_from-quote_chars [] rest = refl
read_from-quote_chars (r ∷ s) rest =
    rw (append_assoc (quote_char r) (quote_chars s) (quotation ∷ rest)) (
      read_from-quote_char r (quote_chars s ++ (quotation ∷ rest))
      ∙ ap (onto r) (read_from-quote_chars s rest))

-- A text that is written as a string of TOML, whatever its characters are and whatever follows, is
-- read as the text, and the reader stops behind it.
pub read-quote : (s rest : List ℕ) → read (quote s ++ rest) ≡ some (s, rest)
unfolding read quote
read-quote s rest =
    rw (append_assoc (quote_chars s) (quotation ∷ []) rest) (read_from-quote_chars s rest)
