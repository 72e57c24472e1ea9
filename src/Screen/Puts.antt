-- ===== src/Screen/Puts.antt =====
-- `puts` prints the text, byte by byte, and returns its length.
use chap_os.Common.{ℕ, zero, suc, ◌+◌, ◌≤◌, ◌<◌, ◌≡◌, ◌⊎◌, ◌==◌, refl, arith, false, some, Mem}
use native.Mathlib.Nat.{add-zero}
use chap_os.Text.Length.{IsText}
use chap_os.Screen.{Display, video, putc, puts_from, puts}
use chap_os.Screen.Cursor.{InScreen, putc-InScreen, putc-outside}

-- `putc` for the `n` bytes from `s`, as memory has them at the start.
unfoldable pub put_all : Mem → ℕ → ℕ → Display → Display
put_all m s zero d = d
put_all m s (suc n) d = put_all m (s + 1) n (putc (m s) d)

puts_from-put_all :
    (left fuel s n index : ℕ) (d : Display) (m : Mem)
    → InScreen d
    → IsText m s n
    → index + left ≡ n
    → left < fuel
    → (s + n < video) ⊎ (video + 4000 ≤ s)
    → ((i : ℕ) → i ≤ n → d.mem (s + i) ≡ m (s + i))
    → puts_from fuel s index d ≡ some (n, put_all m (s + index) left d)
unfolding puts_from put_all
puts_from-put_all left zero s n index d m v t e lt apart same = absurd (omega arith)
puts_from-put_all zero (suc fuel) s n index d m v t e lt apart same =
    ground (arith, t.ends, same index)
puts_from-put_all (suc left) (suc fuel) s n index d m v t e lt apart same =
    let d1 = putc (m (s + index)) d in
    let next : s + (index + 1) ≡ s + index + 1 = omega arith in
    let more : (m (s + index) == 0) ≡ false = ground (arith, t.nonzero index) in
    let rest : puts_from fuel s (index + 1) d1 ≡ some (n, put_all m (s + (index + 1)) left d1) =
      puts_from-put_all left fuel s n (index + 1) d1 m (putc-InScreen (m (s + index)) d v) t
        (omega arith) (omega arith) apart
        (λ i h. ground (arith, putc-outside (m (s + index)) d (s + i) v, same i)) in
    rw (same index (omega arith), more) (rw next at rest)

-- On a terminated text outside the screen's memory, `puts` returns, with fuel for one byte more than
-- the text, the length of the text, after one `putc` for each byte in order.
pub puts-put_all :
    (fuel s n : ℕ) (d : Display)
    → InScreen d
    → IsText d.mem s n
    → n < fuel
    → (s + n < video) ⊎ (video + 4000 ≤ s)
    → puts fuel s d ≡ some (n, put_all d.mem s n d)
unfolding puts
puts-put_all fuel s n d v t lt apart =
    rw (add-zero s) at
      (puts_from-put_all n fuel s n 0 d d.mem v t (omega arith) lt apart (λ i h. refl))
