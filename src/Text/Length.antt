-- ===== src/Text/Length.antt =====
-- `strlen` finds the first zero byte.
use chap_os.Common.{ℕ, zero, suc, ◌+◌, ◌<◌, ◌≡◌, ◌≢◌, some, arith, Mem}
use chap_os.Text.{strlen_from, strlen}

-- The text at `s` has `n` bytes before its first zero byte.
pub record IsText (m : Mem) (s n : ℕ) : Type 0 where
  pub ends : m (s + n) ≡ 0
  pub nonzero : (i : ℕ) → i < n → m (s + i) ≢ 0

strlen_from-total :
    (fuel : ℕ) (m : Mem) (s n len left : ℕ)
    → IsText m s n
    → len + left ≡ n
    → left < fuel
    → strlen_from fuel m s len ≡ some n
unfolding strlen_from
strlen_from-total zero m s n len left t e h = absurd (omega arith)
strlen_from-total (suc fuel) m s n len zero t e h =
    let at_end : len ≡ n = omega arith in ground (arith, t.ends)
strlen_from-total (suc fuel) m s n len (suc left) t e h =
    ground (arith, t.nonzero len, strlen_from-total fuel m s n (len + 1) left t)

-- On a terminated text, with fuel for one byte more than its length, `strlen` returns the length.
pub strlen_total :
    (fuel : ℕ) (m : Mem) (s n : ℕ) → IsText m s n → n < fuel → strlen fuel m s ≡ some n
unfolding strlen
strlen_total fuel m s n t h = strlen_from-total fuel m s n 0 n t (omega arith) h
