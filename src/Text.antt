-- ===== src/Text.antt =====
-- The functions of the C library on texts that the servers use: `strcasecmp`, `atoi`, `%s` and `%d`.
use video_match.Base.{
  member, ◌≡◌, refl, Bool-cases, inl, inr, ap, ℕ, zero, suc, ◌+◌, ◌-◌, ◌*◌, ◌/◌, ◌%◌, Bool, true,
  false, ◌&&◌, ◌||◌, [], ◌∷◌, ◌==◌, ltb, Option, none, some, take, drop, length, leb, if◌then◌else◌,
  Name, ℤ, pos, negsuc, ◌^◌,
}
use video_match.VideoDb.Index.{to_int}

-- `tolower` in the "C" locale
abbrev pub to_lower : ℕ → ℕ
to_lower c = if leb b'A' c && leb c b'Z' then c + 32 else c

-- `strcasecmp(a, b) == 0`
unfoldable pub same_text : Name → Name → Bool
same_text [] [] = true
same_text [] (c ∷ b) = false
same_text (c ∷ a) [] = false
same_text (c ∷ a) (d ∷ b) = to_lower c == to_lower d && same_text a b

abbrev pub is_digit : ℕ → Bool
is_digit c = leb b'0' c && leb c b'9'

abbrev pub is_blank : ℕ → Bool
is_blank c = (c == 32) || (leb 9 c && leb c 13)

-- The digits at the start of a text, added to the number so far.
unfoldable pub digits_from : ℕ → Name → ℕ
digits_from n [] = n
digits_from n (c ∷ s) =
    let more = digits_from (10 * n + (c - b'0')) s in if is_digit c then more else n

abbrev pub negated : ℕ → ℤ
negated zero = pos 0
negated (suc n) = negsuc n

-- The `int` of a number that need not fit: its low 32 bits, in two's complement.
abbrev pub int_of : ℤ → ℤ
int_of (pos n) = to_int n
int_of (negsuc n) = to_int (2 ^ 32 - 1 - n % 2 ^ 32)

-- A sign and digits; `atoi` skips blanks before them. What a number gives that does not fit is not
-- defined in the library; here its low 32 bits stay.
unfoldable pub signed_from : Name → ℤ
unfolding digits_from to_int
signed_from [] = pos 0
signed_from (c ∷ s) =
    if c == b'-'
    then int_of (negated (digits_from 0 s))
    else if c == b'+'
    then to_int (digits_from 0 s)
    else to_int (digits_from 0 (c ∷ s))

unfoldable pub atoi : Name → ℤ
unfolding signed_from
atoi [] = pos 0
atoi (c ∷ s) = let more = atoi s in if is_blank c then more else signed_from (c ∷ s)

-- The decimal digits of a number, on as many rounds as it has digits; `%d` and `%ld`.
unfoldable pub decimal_onto : ℕ → ℕ → Name → Name
decimal_onto zero n s = s
decimal_onto (suc rounds) n s =
    let more = decimal_onto rounds (n / 10) ((n % 10 + b'0') ∷ s) in
    if ltb n 10 then (n + b'0') ∷ s else more

unfoldable pub decimal : ℤ → Name
unfolding decimal_onto
decimal (pos n) = decimal_onto (n + 1) n []
decimal (negsuc n) = b'-' ∷ decimal_onto (n + 2) (n + 1) []

-- The text that a reader of `s.c_str()` sees: the bytes before the first zero.
unfoldable pub c_str : Name → Name
c_str [] = []
c_str (b ∷ bs) = let more = c_str bs in if b == 0 then [] else b ∷ more

pub c_str_whole : (text : Name) → member 0 text ≡ false → c_str text ≡ text
unfolding c_str
c_str_whole [] h = refl
c_str_whole (b ∷ text) h = elim (Bool-cases (b == 0)) [
  | inl zero_byte ↦ let e = rw zero_byte at h in cc e
  | inr other ↦ let h' = rw other at h in rw other (ap (◌∷◌ b) (c_str_whole text h'))
]

-- `snprintf` into a buffer of `size` bytes
abbrev pub printed : ℕ → Name → Name
printed size s = take (size - 1) s

-- `operator<` of `std::string`
unfoldable pub bytes_ltb : Name → Name → Bool
bytes_ltb [] [] = false
bytes_ltb [] (c ∷ b) = true
bytes_ltb (c ∷ a) [] = false
bytes_ltb (c ∷ a) (d ∷ b) = ltb c d || (c == d && bytes_ltb a b)

-- Whether a text begins with another.
unfoldable pub starts : Name → Name → Bool
starts s [] = true
starts [] (c ∷ p) = false
starts (c ∷ s) (d ∷ p) = c == d && starts s p

-- `s.find(p)`: how far into the text the first occurrence is.
unfoldable pub find_text : Name → Name → Option ℕ
unfolding starts
find_text p [] = if starts [] p then some 0 else none
find_text p (c ∷ s) =
    let later = find_text p s in
    if starts (c ∷ s) p then some 0 else elim later [ none ↦ none | some n ↦ some (n + 1) ]

-- `s.find(p, from)`
unfoldable pub find_from : Name → ℕ → Name → Option ℕ
unfolding find_text
find_from p from s =
    if ltb (length s) from
    then none
    else elim (find_text p (drop from s)) [ none ↦ none | some n ↦ some (from + n) ]
