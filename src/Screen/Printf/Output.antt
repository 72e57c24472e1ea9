-- ===== src/Screen/Printf/Output.antt =====
-- `printf` prints what its format stands for.
use chap_os.Common.{
  ℕ, zero, suc, ◌+◌, ◌-◌, ◌≤◌, ◌<◌, ◌≡◌, ◌≢◌, refl, ◌∙◌, arith, ◌==◌, false, List, [], ◌∷◌, Mem,
}
use native.Mathlib.Nat.{add-zero}
use chap_os.Screen.{Display, putc, print_text}
use chap_os.Screen.Cursor.{InScreen}
use chap_os.Screen.Printf.{convert, printf_from, printf}
use chap_os.Screen.Printf.Pieces.{
  Piece, literal, percent, hex, hex_8, unsigned, signed, char, string, width, IsFormat, RendersAll,
  Reads,
}
use chap_os.Screen.Printf.Same.{IsBuffer, print_text-Same, Same-refl}
use chap_os.Screen.Printf.Convert.{}
use chap_os.Screen.Printf.Progress.{
  Output, Converted, OnTheWay, load32-agrees, OnTheWay-print_text, Output-cons, Converted-Output,
}
use chap_os.Screen.Printf.Specifiers.{
  convert_percent, convert_hex, convert_hex_8, convert_unsigned, convert_signed, convert_char,
  convert_string,
}

width-pos : (p : Piece) (ps : List Piece) → 0 < width (p ∷ ps)
width-pos (literal c) ps = omega arith
width-pos percent ps = omega arith
width-pos (hex v) ps = omega arith
width-pos (hex_8 v) ps = omega arith
width-pos (unsigned v) ps = omega arith
width-pos (signed v) ps = omega arith
width-pos (char v) ps = omega arith
width-pos (string s n) ps = omega arith

module _ {conv : ℕ} (apart : IsBuffer conv 64) (m : Mem) (fuel : ℕ) (enough : 40 ≤ fuel) where
  -- The rest of a format after `k` characters, of which the last is at `last`.
  go_on :
      (ps : List Piece) (left buf k last esp : ℕ) {b : Display} (d : Display)
      → last + 1 ≡ buf + k
      → Output conv b
          (RendersAll m ps)
          (buf + k + width ps)
          (printf_from left fuel conv (buf + k) esp d)
      → Output conv b
          (RendersAll m ps)
          (buf + (k + width ps))
          (printf_from left fuel conv (last + 1) esp d)
  go_on ps left buf k last esp d e o =
      let end : buf + (k + width ps) ≡ buf + k + width ps = omega arith in rw (e, end) o

  literal-Output :
      (c : ℕ) (ps : List Piece) (left buf esp : ℕ) {b d : Display}
      → OnTheWay conv m b d
      → c ≢ 0
      → c ≢ b'%'
      → d.mem buf ≡ c
      → Output conv
          (putc c b)
          (RendersAll m ps)
          (buf + 1 + width ps)
          (printf_from left fuel conv (buf + 1) esp (putc c d))
      → Output conv b
          (RendersAll m (literal c ∷ ps))
          (buf + (1 + width ps))
          (printf_from (suc left) fuel conv buf esp d)
  unfolding printf_from print_text
  literal-Output c ps left buf esp w nonzero other e rest =
      let is_end : (c == 0) ≡ false = ground arith in
      let is_percent : (c == b'%') ≡ false = ground arith in
      let end : buf + (1 + width ps) ≡ buf + 1 + width ps = omega arith in
      rw (e, is_end, is_percent, end) (Output-cons m (literal c) ps (c ∷ []) refl rest)

  end-Output :
      (left buf esp : ℕ) {b d : Display}
      → OnTheWay conv m b d
      → d.mem buf ≡ 0
      → Output conv b (RendersAll m []) (buf + 0) (printf_from (suc left) fuel conv buf esp d)
  unfolding printf_from print_text
  end-Output left buf esp {b} {d} w e = record {
    chars = [];
    renders = refl;
    out = d;
    returns = rw (e, add-zero buf) refl;
    same = w.same;
  }

  -- A conversion of two characters, and the rest.
  two_chars :
      (p : Piece) (ps : List Piece) (left buf esp next : ℕ) {b d : Display}
      → OnTheWay conv m b d
      → Reads conv m buf b'%'
      → Converted conv b m p (buf + 1) next (convert left fuel conv 0 (buf + 1) esp d)
      → ((b' d' : Display)
          → OnTheWay conv m b' d'
          → Output conv b'
              (RendersAll m ps)
              (buf + 2 + width ps)
              (printf_from left fuel conv (buf + 2) next d'))
      → Output conv b
          (RendersAll m (p ∷ ps))
          (buf + (2 + width ps))
          (printf_from (suc left) fuel conv buf esp d)
  two_chars p ps left buf esp next w r c rest =
      Converted-Output apart m fuel left buf esp (buf + 1) next p ps w (w.agrees buf r.0 ∙ r.1) c
        (λ b' d' w'. go_on ps left buf 2 (buf + 1) next d' (omega arith) (rest b' d' w'))

  printf_from-Output :
      (ps : List Piece) (left buf esp : ℕ) {b d : Display}
      → OnTheWay conv m b d
      → IsFormat fuel conv m buf esp ps
      → width ps < left
      → Output conv b (RendersAll m ps) (buf + width ps) (printf_from left fuel conv buf esp d)
  unfolding print_text
  printf_from-Output ps zero buf esp w f lt = absurd (omega arith)
  printf_from-Output [] (suc left) buf esp w f lt =
      end-Output left buf esp w (w.agrees buf f.0 ∙ f.1)
  printf_from-Output (p ∷ ps) (suc zero) buf esp w f lt = absurd (omega (arith, width-pos p ps))
  printf_from-Output (literal c ∷ ps) (suc (suc left)) buf esp {b} {d} w (nonzero, other, r, f) lt =
      literal-Output c ps (suc left) buf esp w nonzero other (w.agrees buf r.0 ∙ r.1) (
        printf_from-Output ps (suc left) (buf + 1) esp
          (OnTheWay-print_text apart m (c ∷ []) w (print_text-Same apart (c ∷ []) w.same)) f
          (omega arith))
  printf_from-Output (percent ∷ ps) (suc (suc left)) buf esp w (sp, f) lt =
      two_chars percent ps (suc left) buf esp esp w sp.0
        (convert_percent apart m fuel enough w left (buf + 1) esp
          (w.agrees (buf + 1) sp.1.0 ∙ sp.1.1))
        (λ b' d' w'. printf_from-Output ps (suc left) (buf + 2) esp w' f (omega arith))
  printf_from-Output (hex v ∷ ps) (suc (suc left)) buf esp w (sp, r, f) lt =
      two_chars (hex v) ps (suc left) buf esp (esp + 4) w sp.0
        (convert_hex apart m fuel enough w left (buf + 1) esp v (load32-agrees esp v w r) r.5
          (w.agrees (buf + 1) sp.1.0 ∙ sp.1.1))
        (λ b' d' w'. printf_from-Output ps (suc left) (buf + 2) (esp + 4) w' f (omega arith))
  printf_from-Output (unsigned v ∷ ps) (suc (suc left)) buf esp w (sp, r, f) lt =
      two_chars (unsigned v) ps (suc left) buf esp (esp + 4) w sp.0
        (convert_unsigned apart m fuel enough w left (buf + 1) esp v (load32-agrees esp v w r) r.5
          (w.agrees (buf + 1) sp.1.0 ∙ sp.1.1))
        (λ b' d' w'. printf_from-Output ps (suc left) (buf + 2) (esp + 4) w' f (omega arith))
  printf_from-Output (signed v ∷ ps) (suc (suc left)) buf esp w (sp, r, f) lt =
      two_chars (signed v) ps (suc left) buf esp (esp + 4) w sp.0
        (convert_signed apart m fuel enough w left (buf + 1) esp v (load32-agrees esp v w r) r.5
          (w.agrees (buf + 1) sp.1.0 ∙ sp.1.1))
        (λ b' d' w'. printf_from-Output ps (suc left) (buf + 2) (esp + 4) w' f (omega arith))
  printf_from-Output (char v ∷ ps) (suc (suc left)) buf esp w (sp, r, f) lt =
      two_chars (char v) ps (suc left) buf esp (esp + 4) w sp.0
        (convert_char apart m fuel enough w left (buf + 1) esp v (load32-agrees esp v w r) r.5
          (w.agrees (buf + 1) sp.1.0 ∙ sp.1.1))
        (λ b' d' w'. printf_from-Output ps (suc left) (buf + 2) (esp + 4) w' f (omega arith))
  printf_from-Output (string s n ∷ ps) (suc (suc left)) buf esp w (sp, r, t, out, off, short, f)
        lt =
      two_chars (string s n) ps (suc left) buf esp (esp + 4) w sp.0
        (convert_string apart m fuel enough w left (buf + 1) esp s n (load32-agrees esp s w r) t out
          off short (w.agrees (buf + 1) sp.1.0 ∙ sp.1.1))
        (λ b' d' w'. printf_from-Output ps (suc left) (buf + 2) (esp + 4) w' f (omega arith))
  printf_from-Output (hex_8 v ∷ ps) (suc (suc zero)) buf esp w f lt = absurd (omega arith)
  printf_from-Output (hex_8 v ∷ ps) (suc (suc (suc left))) buf esp w (sp, x, r, f) lt =
      let third : buf + 1 + 1 ≡ buf + 2 = omega arith in
      Converted-Output apart m fuel (suc (suc left)) buf esp (buf + 1 + 1) (esp + 4) (hex_8 v) ps w
        (w.agrees buf sp.0.0 ∙ sp.0.1)
        (convert_hex_8 apart m fuel enough w left (buf + 1) esp v (load32-agrees esp v w r) r.5
          (w.agrees (buf + 1) sp.1.0 ∙ sp.1.1) (rw third (w.agrees (buf + 2) x.0 ∙ x.1)))
        (λ b' d' w'.
          go_on ps (suc (suc left)) buf 3 (buf + 1 + 1) (esp + 4) d' (omega arith)
            (printf_from-Output ps (suc (suc left)) (buf + 3) (esp + 4) w' f (omega arith)))

-- With a conversion buffer off the screen, and a format and arguments that neither the buffer nor the
-- screen overlaps, `printf` returns, the length of the format. It has printed, character by
-- character, a rendering of the format: literal characters and `%%` as they stand, texts and single
-- characters, hexadecimal, unsigned and signed numerals with no needless zero, and for `%#x` eight
-- digits. The final display is the one after these characters, up to the buffer's 64 bytes.
pub printf-Output :
    (ps : List Piece) (fuel conv format esp : ℕ) (d : Display)
    → IsBuffer conv 64
    → InScreen d
    → IsFormat fuel conv d.mem format esp ps
    → width ps + 40 ≤ fuel
    → Output conv d (RendersAll d.mem ps) (width ps) (printf fuel conv format esp d)
unfolding printf
printf-Output ps fuel conv format esp d apart v f enough =
    let o =
      printf_from-Output apart d.mem fuel (omega arith) ps fuel format esp
        (record { on_screen = v; same = Same-refl conv 64 d; agrees = λ a out. refl }) f
        (omega arith) in
    let all : format + width ps - format ≡ width ps = omega arith in
    record {
      chars = o.chars;
      renders = o.renders;
      out = o.out;
      returns = rw (o.returns, printf, all) refl;
      same = o.same;
    }
