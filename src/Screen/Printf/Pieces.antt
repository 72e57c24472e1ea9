-- ===== src/Screen/Printf/Pieces.antt =====
-- What a format of `printf` asks for, and the characters that stand for it.
use chap_os.Common.{
  ℕ, zero, suc, ◌+◌, ◌-◌, ◌*◌, ◌%◌, ◌^◌, ◌≤◌, ◌<◌, ◌≡◌, ◌≢◌, ◌⊎◌, List, [], ◌∷◌, ◌++◌, length,
  get_or, Mem, load32,
}
use chap_os.Screen.{video}
use chap_os.Text.Length.{IsText}
use chap_os.Text.DigitValues.{IsDigit, digit_value}

-- One part of a format, with its argument: a word, or the address and the length of a text.
pub data Piece : Type 0 where
  literal : ℕ → Piece
  percent : Piece
  hex hex_8 unsigned signed char : ℕ → Piece
  string : (at len : ℕ) → Piece

-- The `n` bytes from `s`.
abbrev pub bytes_at : Mem → ℕ → ℕ → List ℕ
bytes_at m s zero = []
bytes_at m s (suc n) = m s ∷ bytes_at m (s + 1) n

-- How many characters of the format a piece takes.
abbrev pub width : List Piece → ℕ
width [] = 0
width (literal c ∷ ps) = 1 + width ps
width (percent ∷ ps) = 2 + width ps
width (hex v ∷ ps) = 2 + width ps
width (hex_8 v ∷ ps) = 3 + width ps
width (unsigned v ∷ ps) = 2 + width ps
width (signed v ∷ ps) = 2 + width ps
width (char v ∷ ps) = 2 + width ps
width (string a n ∷ ps) = 2 + width ps

-- An address that `printf` does not write to.
pub record IsUntouched (conv a : ℕ) : Type 0 where
  pub off_screen : (a < video) ⊎ (video + 4000 ≤ a)
  pub off_buffer : (a < conv) ⊎ (conv + 64 ≤ a)

abbrev pub Reads : ℕ → Mem → ℕ → ℕ → Type 0
Reads conv m a v = IsUntouched conv a × (m a ≡ v)

abbrev pub ReadsWord : ℕ → Mem → ℕ → ℕ → Type 0
ReadsWord conv m a v =
    IsUntouched conv a
    × IsUntouched conv (a + 1)
    × IsUntouched conv (a + 2)
    × IsUntouched conv (a + 3)
    × (load32 m a ≡ v)
    × (v < 2 ^ 32)

-- `%` and the character after it.
abbrev pub Specifies : ℕ → Mem → ℕ → ℕ → Type 0
Specifies conv m buf c = Reads conv m buf b'%' × Reads conv m (buf + 1) c

-- Memory has at `buf` a format with these pieces, and at `esp` their arguments.
abbrev pub IsFormat : ℕ → ℕ → Mem → ℕ → ℕ → List Piece → Type 0
IsFormat fuel conv m buf esp [] = Reads conv m buf 0
IsFormat fuel conv m buf esp (literal c ∷ ps) =
    (c ≢ 0) × (c ≢ b'%') × Reads conv m buf c × IsFormat fuel conv m (buf + 1) esp ps
IsFormat fuel conv m buf esp (percent ∷ ps) =
    Specifies conv m buf b'%' × IsFormat fuel conv m (buf + 2) esp ps
IsFormat fuel conv m buf esp (hex v ∷ ps) =
    Specifies conv m buf b'x' × ReadsWord conv m esp v × IsFormat fuel conv m (buf + 2) (esp + 4) ps
IsFormat fuel conv m buf esp (hex_8 v ∷ ps) =
    Specifies conv m buf b'#'
    × Reads conv m (buf + 2) b'x'
    × ReadsWord conv m esp v
    × IsFormat fuel conv m (buf + 3) (esp + 4) ps
IsFormat fuel conv m buf esp (unsigned v ∷ ps) =
    Specifies conv m buf b'u' × ReadsWord conv m esp v × IsFormat fuel conv m (buf + 2) (esp + 4) ps
IsFormat fuel conv m buf esp (signed v ∷ ps) =
    Specifies conv m buf b'd' × ReadsWord conv m esp v × IsFormat fuel conv m (buf + 2) (esp + 4) ps
IsFormat fuel conv m buf esp (char v ∷ ps) =
    Specifies conv m buf b'c' × ReadsWord conv m esp v × IsFormat fuel conv m (buf + 2) (esp + 4) ps
IsFormat fuel conv m buf esp (string a n ∷ ps) =
    Specifies conv m buf b's'
    × ReadsWord conv m esp a
    × IsText m a n
    × ((i : ℕ) → i ≤ n → IsUntouched conv (a + i))
    × ((a + n < video) ⊎ (video + 4000 ≤ a))
    × (n < fuel)
    × IsFormat fuel conv m (buf + 2) (esp + 4) ps

-- The number that a list of digits stands for, the first being the most significant.
abbrev pub read_digits : ℕ → ℕ → List ℕ → ℕ
read_digits radix acc [] = acc
read_digits radix acc (c ∷ cs) = read_digits radix (acc * radix + digit_value c) cs

abbrev pub AreDigits : ℕ → List ℕ → Type 0
AreDigits radix [] = Unit
AreDigits radix (c ∷ cs) = IsDigit radix c × AreDigits radix cs

-- The usual numeral of `v`: digits, at least one, with no needless leading zero.
pub record IsNumeral (radix v : ℕ) (cs : List ℕ) : Type 0 where
  pub digits : AreDigits radix cs
  pub value : read_digits radix 0 cs ≡ v
  pub nonempty : 0 < length cs
  pub leading : (length cs ≡ 1) ⊎ (get_or cs 0 0 ≢ b'0')

-- The numeral of a word with its sign: `-` and the numeral of its negation, from 2 ^ 31 on.
abbrev pub IsSigned : ℕ → List ℕ → Type 0
IsSigned v cs =
    ((v < 2 ^ 31) × IsNumeral 10 v cs)
    ⊎ ((2 ^ 31 ≤ v) × (ds : List ℕ) × (cs ≡ b'-' ∷ ds) × IsNumeral 10 (2 ^ 32 - v) ds)

-- Eight hexadecimal digits.
abbrev pub IsHex8 : ℕ → List ℕ → Type 0
IsHex8 v cs = (length cs ≡ 8) × AreDigits 16 cs × (read_digits 16 0 cs ≡ v)

-- The characters that a piece stands for.
abbrev pub Renders : Mem → Piece → List ℕ → Type 0
Renders m (literal c) cs = cs ≡ c ∷ []
Renders m percent cs = cs ≡ b'%' ∷ []
Renders m (hex v) cs = IsNumeral 16 v cs
Renders m (hex_8 v) cs = IsHex8 v cs
Renders m (unsigned v) cs = IsNumeral 10 v cs
Renders m (signed v) cs = IsSigned v cs
Renders m (char v) cs = cs ≡ v % 2 ^ 8 ∷ []
Renders m (string a n) cs = cs ≡ bytes_at m a n

abbrev pub RendersAll : Mem → List Piece → List ℕ → Type 0
RendersAll m [] cs = cs ≡ []
RendersAll m (p ∷ ps) cs =
    (here : List ℕ) × (rest : List ℕ) × (cs ≡ here ++ rest)
    × Renders m p here
    × RendersAll m ps rest
