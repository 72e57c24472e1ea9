-- ===== src/Screen/Printf/Specifiers.antt =====
-- What `convert` does on each specifier.
use chap_os.Common.{
  ℕ, suc, ◌+◌, ◌%◌, ◌^◌, ◌≤◌, ◌<◌, ◌≡◌, ◌⊎◌, refl, sym, ◌∙◌, arith, [], ◌∷◌, Mem, load32,
}
use chap_os.Text.Length.{IsText}
use chap_os.Screen.{Display, video, putc, print_text}
use chap_os.Screen.Printf.{convert}
use chap_os.Screen.Printf.Pieces.{
  percent, hex, hex_8, unsigned, signed, char, string, bytes_at, IsUntouched,
}
use chap_os.Screen.Printf.Numbers.{bytes_at-same}
use chap_os.Screen.Printf.Same.{IsBuffer, print_text-Same}
use chap_os.Screen.Printf.Convert.{
  text-Shown, print_hex-Shown, print_hex_8-Shown, print_unsigned-Shown, print_signed-Shown,
}
use chap_os.Screen.Printf.Progress.{Converted, OnTheWay, Shown-Converted}

module _ {conv : ℕ} (apart : IsBuffer conv 64) (m : Mem) (fuel : ℕ) (enough : 40 ≤ fuel)
    {b d : Display} (w : OnTheWay conv m b d) (left buf esp : ℕ) where
  pub convert_percent :
      d.mem buf ≡ b'%'
      → Converted conv b m percent buf esp (convert (suc left) fuel conv 0 buf esp d)
  unfolding convert print_text
  convert_percent e = record {
    shown = putc b'%' d;
    chars = b'%' ∷ [];
    renders = refl;
    returns = rw e refl;
    same = print_text-Same apart (b'%' ∷ []) w.same;
  }

  module _ (v : ℕ) (a : load32 d.mem esp ≡ v) (h : v < 2 ^ 32) where
    pub convert_hex :
        d.mem buf ≡ b'x'
        → Converted conv b m (hex v) buf (esp + 4) (convert (suc left) fuel conv 0 buf esp d)
    unfolding convert
    convert_hex e =
        rw (e, convert, a)
          (Shown-Converted m (hex v) buf esp
            (print_hex-Shown apart fuel enough w.on_screen w.same v h))

    pub convert_hex_8 :
        d.mem buf ≡ b'#'
        → d.mem (buf + 1) ≡ b'x'
        → Converted conv b m
            (hex_8 v)
            (buf + 1)
            (esp + 4)
            (convert (suc (suc left)) fuel conv 0 buf esp d)
    unfolding convert
    convert_hex_8 e e' =
        rw (e, e', convert, a)
          (Shown-Converted m (hex_8 v) (buf + 1) esp
            (print_hex_8-Shown apart fuel enough w.on_screen w.same v h))

    pub convert_unsigned :
        d.mem buf ≡ b'u'
        → Converted conv b m (unsigned v) buf (esp + 4) (convert (suc left) fuel conv 0 buf esp d)
    unfolding convert
    convert_unsigned e =
        rw (e, convert, a)
          (Shown-Converted m (unsigned v) buf esp
            (print_unsigned-Shown apart fuel enough w.on_screen w.same v h))

    pub convert_signed :
        d.mem buf ≡ b'd'
        → Converted conv b m (signed v) buf (esp + 4) (convert (suc left) fuel conv 0 buf esp d)
    unfolding convert
    convert_signed e =
        rw (e, convert, a)
          (Shown-Converted m (signed v) buf esp
            (print_signed-Shown apart fuel enough w.on_screen w.same v h))

    pub convert_char :
        d.mem buf ≡ b'c'
        → Converted conv b m (char v) buf (esp + 4) (convert (suc left) fuel conv 0 buf esp d)
    unfolding convert print_text
    convert_char e =
        rw (e, convert, a)
          (Shown-Converted m (char v) buf esp (record {
            chars = v % 2 ^ 8 ∷ [];
            renders = refl;
            out = putc (v % 2 ^ 8) d;
            returns = refl;
            same = print_text-Same apart (v % 2 ^ 8 ∷ []) w.same;
          }))

  pub convert_string :
      (start n : ℕ)
      → load32 d.mem esp ≡ start
      → IsText m start n
      → ((i : ℕ) → i ≤ n → IsUntouched conv (start + i))
      → (start + n < video) ⊎ (video + 4000 ≤ start)
      → n < fuel
      → d.mem buf ≡ b's'
      → Converted conv b m (string start n) buf (esp + 4) (convert (suc left) fuel conv 0 buf esp d)
  unfolding convert
  convert_string start n a t out off lt e =
      rw (e, convert, a)
        (Shown-Converted m (string start n) buf esp (
          rw (sym bytes) at (
            text-Shown apart fuel enough w.on_screen w.same (λ cs. cs ≡ bytes_at d.mem start n)
              d.mem start n (λ a out. refl) text lt off refl)))
    where
      byte : (i : ℕ) → i ≤ n → d.mem (start + i) ≡ m (start + i)
      byte i lt = w.agrees (start + i) (out i lt)

      bytes : bytes_at m start n ≡ bytes_at d.mem start n
      bytes = bytes_at-same d.mem m start n (λ i lt. sym (byte i (omega arith)))

      text : IsText d.mem start n
      text = record {
        ends = byte n (omega arith) ∙ t.ends;
        nonzero = λ i lt. rw (byte i (omega arith)) (t.nonzero i lt);
      }
