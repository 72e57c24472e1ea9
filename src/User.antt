-- ===== src/User.antt =====
-- Programs that run on the kernel: chapOS/syscalls. They reach it through the calls of
-- ece391syscall.h, which are a record of operations here: the programs are over any such record, and
-- the kernel's system calls are one. A local array and a string literal are known by their
-- addresses; `lit t` is where the literal `t` lies.
pub mod Support
pub mod Io
pub mod Programs
pub mod Shell
pub mod Grep
pub mod Syserr
pub mod OnKernel
pub mod Cat
use chap_os.Common.{ℕ, ◌≡◌, refl, Option, none, some, ℤ, Mem}

-- A computation that changes a state, and may not return.
abbrev pub Step : Type 0 → Type 0 → Type 0
Step S A = S → Option (A × S)

abbrev pub pure : {S A : Type 0} → A → Step S A
pure a s = some (a, s)

infixl 5 ◌>>=◌ ◌>>◌
abbrev pub ◌>>=◌ : {S A B : Type 0} → Step S A → (A → Step S B) → Step S B
◌>>=◌ m f s = elim (m s) [ none ↦ none | some (a, s') ↦ f a s' ]

abbrev pub ◌>>◌ : {S A B : Type 0} → Step S A → Step S B → Step S B
m >> k = m >>= λ _. k

-- What a step that returns hands on.
pub >>=-some :
    {S A B : Type 0} (m : Step S A) (f : A → Step S B) {s s' : S} {a : A}
    → m s ≡ some (a, s')
    → (m >>= f) s ≡ f a s'
>>=-some m f e = rw (e, ◌>>=◌) refl

-- The system calls, over the state of the machine.
pub record Calls : Type 1 where
  pub State : Type 0
  pub mem : State → Mem
  pub set_mem : Mem → State → State
  pub execute : ℕ → Step State ℤ
  pub read : ℤ → ℕ → ℤ → Step State ℤ
  pub write : ℤ → ℕ → ℤ → Step State ℤ
  pub open_call : ℕ → Step State ℤ
  pub close : ℤ → Step State ℤ
  pub getargs : ℕ → ℤ → Step State ℤ
  pub vidmap : ℕ → Step State ℤ
  pub int_0x80 : ℤ → Step State ℤ
