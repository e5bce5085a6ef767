-- ===== src/Shared/Text.antt =====
-- `str.strip`, `str.upper` and the validators of identifiers built on them.
use Prim.Native.Char.{Char, code}
use Prim.Native.Nat.{ℕ, zero, suc, ◌/◌, ◌%◌}
use bitcoin_trading_strategy.Shared.{
  String, ◌≡◌, refl, Bool, true, false, ◌&&◌, ◌||◌, List, [], ◌∷◌, arith, leb, ◌==◌, if◌then◌else◌,
}
use bitcoin_trading_strategy.Shared.Result.{Result, ok, err, value_error}

-- `str.isspace`, on one code point.
unfoldable pub is_space : Char → Bool
is_space c =
    let n = code c in
    (leb 9 n && leb n 13)
    || (leb 28 n && leb n 32)
    || (n == 0x85)
    || (n == 0xa0)
    || (n == 0x1680)
    || (leb 0x2000 n && leb n 0x200a)
    || (n == 0x2028)
    || (n == 0x2029)
    || (n == 0x202f)
    || (n == 0x205f)
    || (n == 0x3000)

abbrev pub is_empty : String → Bool
is_empty String.[] = true
is_empty (String.◌∷◌ _ _) = false

unfoldable pub lstrip : String → String
lstrip String.[] = String.[]
lstrip (String.◌∷◌ c s) = if is_space c then lstrip s else String.◌∷◌ c s

unfoldable pub rstrip : String → String
rstrip String.[] = String.[]
rstrip (String.◌∷◌ c s) =
    let rest = rstrip s in if is_space c && is_empty rest then String.[] else String.◌∷◌ c rest

unfoldable pub strip : String → String
unfolding lstrip rstrip
strip s = rstrip (lstrip s)

-- The capital of each ASCII letter. A text is in the scope of `upper` if it is ASCII.
abbrev capitals : List (Char × Char)
capitals =
    ("a", "A")
    ∷ ("b", "B")
    ∷ ("c", "C")
    ∷ ("d", "D")
    ∷ ("e", "E")
    ∷ ("f", "F")
    ∷ ("g", "G")
    ∷ ("h", "H")
    ∷ ("i", "I")
    ∷ ("j", "J")
    ∷ ("k", "K")
    ∷ ("l", "L")
    ∷ ("m", "M")
    ∷ ("n", "N")
    ∷ ("o", "O")
    ∷ ("p", "P")
    ∷ ("q", "Q")
    ∷ ("r", "R")
    ∷ ("s", "S")
    ∷ ("t", "T")
    ∷ ("u", "U")
    ∷ ("v", "V")
    ∷ ("w", "W")
    ∷ ("x", "X")
    ∷ ("y", "Y")
    ∷ ("z", "Z")
    ∷ []

capital_in : List (Char × Char) → Char → Char
capital_in [] c = c
capital_in ((small, big) ∷ rest) c = if code small == code c then big else capital_in rest c

unfoldable pub upper : String → String
unfolding capital_in
upper String.[] = String.[]
upper (String.◌∷◌ c s) = String.◌∷◌ (capital_in capitals c) (upper s)

-- The small letter of each ASCII capital.
small_in : List (Char × Char) → Char → Char
small_in [] c = c
small_in ((small, big) ∷ rest) c = if code big == code c then small else small_in rest c

-- `str.lower`, on ASCII.
unfoldable pub lower : String → String
unfolding small_in
lower String.[] = String.[]
lower (String.◌∷◌ c s) = String.◌∷◌ (small_in capitals c) (lower s)

-- `_validate_identifier`: a text that is not blank, stripped.
unfoldable pub validate_identifier : String → Result String
validate_identifier value = if is_empty (strip value) then err value_error else ok (strip value)

strip_runs : strip "  MBT \n" ≡ "MBT"
unfolding strip is_space
strip_runs = refl

upper_runs : upper "mBt6" ≡ "MBT6"
unfolding upper
upper_runs = refl

is_empty-rstrip :
    (c : Char) (s : String) → is_space c ≡ false → is_empty (rstrip (String.◌∷◌ c s)) ≡ false
unfolding rstrip
is_empty-rstrip c s h = rw h

rstrip-rstrip : (s : String) → rstrip (rstrip s) ≡ rstrip s
unfolding rstrip
rstrip-rstrip String.[] = refl
rstrip-rstrip (String.◌∷◌ c s) = ground (arith, rstrip-rstrip s)

-- What `lstrip` returns begins with no space, and stripping it on the right keeps that so.
lstrip-rstrip : (s : String) → lstrip (rstrip (lstrip s)) ≡ rstrip (lstrip s)
unfolding lstrip rstrip
lstrip-rstrip String.[] = refl
lstrip-rstrip (String.◌∷◌ c s) = ground (arith, lstrip-rstrip s)

-- Stripping twice is stripping once.
pub strip-strip : (s : String) → strip (strip s) ≡ strip s
unfolding strip
strip-strip s = rw (lstrip-rstrip s) (rstrip-rstrip (lstrip s))

-- A validated identifier is its own normal form: validating it again returns it.
pub validate_identifier_idem :
    (s k : String) → validate_identifier s ≡ ok k → validate_identifier k ≡ ok k
unfolding validate_identifier
validate_identifier_idem s k h = ground (arith, strip-strip s)

-- A text that begins with no space is not blank.
pub validate_identifier-cons :
    (c : Char) (s : String)
    → is_space c ≡ false
    → validate_identifier (String.◌∷◌ c s) ≡ ok (strip (String.◌∷◌ c s))
unfolding validate_identifier strip lstrip
validate_identifier-cons c s h = rw h (rw (is_empty-rstrip c s h) refl)

-- The concatenation of two texts.
abbrev pub append_text : String → String → String
append_text String.[] t = t
append_text (String.◌∷◌ c s) t = String.◌∷◌ c (append_text s t)

-- `str(n)`: the digits of a number, of which there are not more than `fuel`.
abbrev pub digit : ℕ → String
digit n =
    if n == 0
    then "0"
    else if n == 1
    then "1"
    else if n == 2
    then "2"
    else if n == 3
    then "3"
    else if n == 4
    then "4"
    else if n == 5
    then "5"
    else if n == 6
    then "6"
    else if n == 7
    then "7"
    else if n == 8
    then "8"
    else "9"

digits : ℕ → ℕ → String
digits zero n = ""
digits (suc fuel) n =
    let rest = digits fuel (n / 10) in
    if leb n 9 then digit n else append_text rest (digit (n % 10))

unfoldable pub text_of_number : ℕ → String
unfolding digits
text_of_number n = digits (suc n) n

text_of_number_runs : text_of_number 10015 ≡ "10015"
unfolding text_of_number
text_of_number_runs = refl
