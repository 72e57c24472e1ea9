-- ===== src/Boot/Refused.antt =====
-- `entry` under a boot loader that does not keep to the protocol.
use chap_os.Common.{
  ℕ, ◌≤◌, ◌≡◌, ◌≢◌, refl, ap, ◌∙◌, arith, Option, none, some, List, [], ◌∷◌, ◌++◌, ◌==◌, false,
  ◌>>=◌, codes, Mem,
}
use mathlib.Core.Path.{subst}
use chap_os.Pic.{Devices}
use chap_os.Paging.{Layout}
use chap_os.Keyboard.{Control}
use chap_os.Screen.{Display, clear, print_text}
use chap_os.Screen.Cursor.{InScreen}
use chap_os.Screen.Printf.{with_mem}
use chap_os.Screen.Printf.Pieces.{Piece, literal, hex_8, IsHex8, IsFormat, RendersAll}
use chap_os.Screen.Printf.Same.{IsBuffer, Same}
use chap_os.Screen.Printf.Output.{printf-Output}
use chap_os.Process.{Kernel}
use chap_os.Boot.{Started, Places, push_args, print, boot_information, on_display, entry}

abbrev pub literals : List ℕ → List Piece → List Piece
literals [] ps = ps
literals (c ∷ cs) ps = literal c ∷ literals cs ps

-- What is printed of literal characters starts with them.
Renders-literals :
    (m : Mem) (ls : List ℕ) (ps : List Piece) (cs : List ℕ)
    → RendersAll m (literals ls ps) cs
    → (rest : List ℕ) × (cs ≡ ls ++ rest) × RendersAll m ps rest
Renders-literals m [] ps cs h = (cs, refl, h)
Renders-literals m (c ∷ ls) ps cs (here, rest, e, h, more) =
    let (rest', e', h') = Renders-literals m ls ps rest more in
    (rest', e ∙ (ap (λ x. x ++ rest) h ∙ ap (λ r. c ∷ r) e'), h')

-- The pieces of the message for the number `magic`.
abbrev pub invalid_magic : ℕ → List Piece
invalid_magic magic = literals (codes "Invalid magic number: 0x") (hex_8 magic ∷ literal b'\n' ∷ [])

-- The characters of the message.
message-chars :
    (m : Mem) (magic : ℕ) (cs : List ℕ)
    → RendersAll m (invalid_magic magic) cs
    → (digits : List ℕ) × IsHex8 magic digits
      × (cs ≡ codes "Invalid magic number: 0x" ++ (digits ++ b'\n' ∷ []))
message-chars m magic cs h =
    let ls : List ℕ = codes "Invalid magic number: 0x" in
    let (rest, e, (digits, end, e1, hex, (newline, last, e2, h2, e3))) =
      Renders-literals m ls (hex_8 magic ∷ literal b'\n' ∷ []) cs h in
    (digits, hex, e ∙ ap (λ r. ls ++ r) (e1 ∙ ap (λ r. digits ++ r) (e2 ∙ rw (h2, e3) refl)))

-- The display with the screen cleared and the number pushed.
abbrev pub told : ℕ → ℕ → Display → Display
told esp magic d = with_mem (push_args esp (magic ∷ []) (clear d).mem) (clear d)

-- `entry` has returned early: the message is printed, with the number as eight hexadecimal digits, and
-- nothing but the display has changed.
pub record Refusal (conv esp magic : ℕ) (k : Kernel)
    (result : Option (Option (Started × Control) × Kernel)) : Type 0 where
  pub digits : List ℕ
  pub numeral : IsHex8 magic digits
  pub out : Display
  pub shown :
      Same conv 64
        (print_text
          (codes "Invalid magic number: 0x" ++ (digits ++ b'\n' ∷ []))
          (told esp magic k.console.display))
        out
  pub returns : result ≡ some (none, on_display (λ _. out) k)

-- With a number other than the boot loader's, `entry` prints it and returns; it sets up nothing.
pub entry-Refusal :
    (devices : Devices) (layout : Layout) (fuel conv esp : ℕ) (lit : List ℕ → ℕ) (places : Places)
    (magic addr : ℕ) (k : Kernel)
    → magic ≢ 0x2BADB002
    → IsBuffer conv 64
    → InScreen (told esp magic k.console.display)
    → IsFormat fuel conv
        (told esp magic k.console.display).mem
        (lit (codes "Invalid magic number: 0x%#x\n"))
        esp
        (invalid_magic magic)
    → 68 ≤ fuel
    → Refusal conv esp magic k (entry devices layout fuel conv esp lit places magic addr k)
unfolding entry boot_information print
entry-Refusal devices layout fuel conv esp lit places magic addr k wrong apart v f enough =
    let b : Display = told esp magic k.console.display in
    let other : (magic == 0x2BADB002) ≡ false = ground arith in
    let o =
      printf-Output (invalid_magic magic) fuel conv (lit (codes "Invalid magic number: 0x%#x\n"))
        esp b apart v f (omega arith) in
    let (digits, hex, e) = message-chars b.mem magic o.chars o.renders in
    record {
      digits = digits;
      numeral = hex;
      out = o.out;
      shown = subst (λ cs. Same conv 64 (print_text cs b) o.out) e o.same;
      returns = rw (other, o.returns, ◌>>=◌) refl;
    }
