-- ===== src/Text/Compare.antt =====
-- `strncmp` decides whether two zero-padded texts agree on their first bytes.
use chap_os.Common.{
  ℕ, zero, suc, ◌+◌, ◌<◌, ◌≡◌, ◌≢◌, ◌↔◌, ◌==◌, arith, inl, inr, Bool-cases, refl, Mem, pos, signed8,
  sub_ℤ,
}
use native.Mathlib.Nat.{add-zero}
use chap_os.Text.{strncmp_from, strncmp}
use chap_os.Text.Copy.{padded, padded-ended}

abbrev pub IsBytes : Mem → Type 0
IsBytes m = (a : ℕ) → m a < 256

sub_ℤ-signed8 : (a b : ℕ) → a < 256 → b < 256 → sub_ℤ (signed8 a) (signed8 b) ≡ pos 0 → a ≡ b
sub_ℤ-signed8 a b ha hb e = ground arith

signed8_self : (a b : ℕ) → a < 256 → a ≡ b → sub_ℤ (signed8 a) (signed8 b) ≡ pos 0
signed8_self a b h e = ground arith

-- The zero-padded texts agree below `n`.
abbrev pub Agree : Mem → ℕ → ℕ → ℕ → Type 0
Agree m s t n = (k : ℕ) → k < n → padded m s k ≡ padded m t k

pub Agree-head : (m : Mem) (s t n : ℕ) → Agree m s t (suc n) → m s ≡ m t
unfolding padded
Agree-head m s t n h = h 0 (omega arith)

pub Agree-suc :
    (m : Mem) (s t n : ℕ) → Agree m s t (suc n) → m s ≢ 0 → (m s ≡ m t) × Agree m (s + 1) (t + 1) n
unfolding padded
Agree-suc m s t n h z = (h 0 (omega arith), λ k lt. ground (arith, h 0, h (suc k)))

pub Agree-cons : (m : Mem) (s t n : ℕ) → m s ≡ m t → Agree m (s + 1) (t + 1) n → Agree m s t (suc n)
unfolding padded
Agree-cons m s t n e h zero lt = e
Agree-cons m s t n e h (suc k) lt = ground (arith, h k)

pub Agree-ended : (m : Mem) (s t n : ℕ) → m s ≡ m t → m s ≡ 0 → Agree m s t n
Agree-ended m s t n e z k lt = ground (arith, padded-ended m s k, padded-ended m t k)

strncmp_from-Agree :
    (left : ℕ) (m : Mem) (s t i : ℕ)
    → IsBytes m
    → (strncmp_from left m s t i ≡ pos 0) ↔ Agree m (s + i) (t + i) left
unfolding strncmp_from
strncmp_from-Agree zero m s t i b = (λ _ k lt. absurd (omega arith), λ _. refl)
strncmp_from-Agree (suc left) m s t i b =
    let s' : s + (i + 1) ≡ s + i + 1 = omega arith in
    let t' : t + (i + 1) ≡ t + i + 1 = omega arith in
    let ih : (strncmp_from left m s t (i + 1) ≡ pos 0) ↔ Agree m (s + i + 1) (t + i + 1) left =
      rw (s', t') at (strncmp_from-Agree left m s t (i + 1) b) in
    let x : ℕ = m (s + i) in
    let y : ℕ = m (t + i) in
    elim (Bool-cases (x == y)) [
      | inl e ↦ elim (Bool-cases (x == 0)) [
        | inl z ↦
            rw (e, z)
              (
                λ _. Agree-ended m (s + i) (t + i) (suc left) (ground arith) (ground arith),
                λ _. signed8_self x y (b (s + i)) (ground arith),
              )
        | inr z ↦
            rw (e, z)
              (
                λ h. Agree-cons m (s + i) (t + i) left (ground arith) (ih.0 h),
                λ ag. ih.1 (Agree-suc m (s + i) (t + i) left ag (ground arith)).1,
              )
      ]
      | inr ne ↦ rw ne (
        λ h. absurd (ground (arith, sub_ℤ-signed8 x y (b (s + i)) (b (t + i)) h)),
        λ ag. absurd (ground (arith, Agree-head m (s + i) (t + i) left ag)),
      )
    ]

-- On memory of bytes, `strncmp` returns 0 exactly when the first `n` bytes of the two texts, padded
-- with zeros after their ends, are the same.
pub strncmp-Agree :
    (m : Mem) (s1 s2 n : ℕ) → IsBytes m → (strncmp m s1 s2 n ≡ pos 0) ↔ Agree m s1 s2 n
unfolding strncmp
strncmp-Agree m s t n b = rw (add-zero s, add-zero t) at (strncmp_from-Agree n m s t 0 b)
