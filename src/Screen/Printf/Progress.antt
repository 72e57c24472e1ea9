-- ===== src/Screen/Printf/Progress.antt =====
-- How far `printf` has come: what one conversion did, and the rest of the format after it.
use chap_os.Common.{ℕ, suc, ◌+◌, ◌≡◌, refl, sym, ◌∙◌, Option, some, List, ◌∷◌, ◌++◌, Mem, load32}
use chap_os.Screen.{Display, print_text}
use chap_os.Screen.Cursor.{InScreen}
use chap_os.Screen.Printf.{Cursor, argument, convert, printf_from}
use chap_os.Screen.Printf.Pieces.{Piece, IsUntouched, Renders, RendersAll, ReadsWord}
use chap_os.Screen.Printf.Same.{
  IsBuffer, Same, print_text-InScreen, print_text-outside, print_text-append,
}
use chap_os.Screen.Printf.Convert.{Shown}

-- The characters printed are of the wanted kind, and the display is the one that printing them one
-- by one leads to, up to the conversion buffer.
pub record Output (conv : ℕ) (b : Display) (Q : List ℕ → Type 0) (end : ℕ)
    (result : Option (ℕ × Display)) : Type 0 where
  pub chars : List ℕ
  pub renders : Q chars
  pub out : Display
  pub returns : result ≡ some (end, out)
  pub same : Same conv 64 (print_text chars b) out

-- A conversion that printed a piece, and left off at `buf` and `esp`.
pub record Converted (conv : ℕ) (b : Display) (m : Mem) (p : Piece) (buf esp : ℕ)
    (result : Option Cursor) : Type 0 where
  pub shown : Display
  pub chars : List ℕ
  pub renders : Renders m p chars
  pub returns : result ≡ some (record { buf = buf; esp = esp; shown = shown })
  pub same : Same conv 64 (print_text chars b) shown

-- The display is on the way: it has the old memory where nothing was to be written.
pub record OnTheWay (conv : ℕ) (m : Mem) (b d : Display) : Type 0 where
  pub on_screen : InScreen b
  pub same : Same conv 64 b d
  pub agrees : (a : ℕ) → IsUntouched conv a → d.mem a ≡ m a

pub load32-agrees :
    {conv : ℕ} {m : Mem} {b d : Display} (p v : ℕ)
    → OnTheWay conv m b d
    → ReadsWord conv m p v
    → load32 d.mem p ≡ v
load32-agrees p v w r =
    rw (w.agrees p r.0, w.agrees (p + 1) r.1, w.agrees (p + 2) r.2, w.agrees (p + 3) r.3) r.4

module _ {conv : ℕ} (m : Mem) where
  pub Output-cons :
      (p : Piece) (ps : List Piece) (here : List ℕ) {b : Display} {end : ℕ}
      {result : Option (ℕ × Display)}
      → Renders m p here
      → Output conv (print_text here b) (RendersAll m ps) end result
      → Output conv b (RendersAll m (p ∷ ps)) end result
  Output-cons p ps here {b} h o = record {
    chars = here ++ o.chars;
    renders = (here, o.chars, refl, h, o.renders);
    out = o.out;
    returns = o.returns;
    same = rw (print_text-append here o.chars b) o.same;
  }

  pub Shown-Converted :
      (p : Piece) (buf esp : ℕ) {b : Display} {r : Option Display}
      → Shown conv b (Renders m p) r
      → Converted conv b m p buf (esp + 4) (argument buf esp r)
  Shown-Converted p buf esp s = record {
    shown = s.out;
    chars = s.chars;
    renders = s.renders;
    returns = rw s.returns refl;
    same = s.same;
  }

module _ (conv fuel : ℕ) where
  after_percent :
      (left buf esp : ℕ) (d : Display) (c : Cursor)
      → d.mem buf ≡ b'%'
      → convert left fuel conv 0 (buf + 1) esp d ≡ some c
      → printf_from (suc left) fuel conv buf esp d
        ≡ printf_from left fuel conv (c.buf + 1) c.esp c.shown
  unfolding printf_from
  after_percent left buf esp d c e h = rw (e, h) refl

module _ {conv : ℕ} (apart : IsBuffer conv 64) (m : Mem) where
  pub OnTheWay-print_text :
      (cs : List ℕ) {b d d' : Display}
      → OnTheWay conv m b d
      → Same conv 64 (print_text cs b) d'
      → OnTheWay conv m (print_text cs b) d'
  OnTheWay-print_text cs {b} w s = record {
    on_screen = print_text-InScreen cs b w.on_screen;
    same = s;
    agrees = λ a out.
        s.mem a out.off_buffer
        ∙ (print_text-outside cs b a w.on_screen out.off_screen
            ∙ (sym (w.same.mem a out.off_buffer) ∙ w.agrees a out));
  }

  -- A conversion, and then the rest of the format.
  pub Converted-Output :
      (fuel left buf esp last next : ℕ) (p : Piece) (ps : List Piece) {b d : Display} {end : ℕ}
      → OnTheWay conv m b d
      → d.mem buf ≡ b'%'
      → Converted conv b m p last next (convert left fuel conv 0 (buf + 1) esp d)
      → ((b' d' : Display)
          → OnTheWay conv m b' d'
          → Output conv b' (RendersAll m ps) end (printf_from left fuel conv (last + 1) next d'))
      → Output conv b (RendersAll m (p ∷ ps)) end (printf_from (suc left) fuel conv buf esp d)
  Converted-Output fuel left buf esp last next p ps {b} {d} w e c rest =
      rw (after_percent conv fuel left buf esp d _ e c.returns) (
        Output-cons m p ps c.chars c.renders
          (rest (print_text c.chars b) c.shown (OnTheWay-print_text c.chars w c.same)))
