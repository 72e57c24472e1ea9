-- ===== src/Idt/Table.antt =====
-- What the finished table has for each vector.
use chap_os.Common.{
  ℕ, zero, suc, ◌^◌, ◌<◌, ◌≡◌, Option, none, some, List, [], ◌∷◌, ltb, ◌==◌, ◌||◌, if◌then◌else◌,
  get_or,
}
use chap_os.Idt.{Gate, Gates, Handlers, filled_in, choose_gate}
use chap_os.Idt.Entries.{target}

-- The handlers of the 32 exceptions: there is none for 15, for 21 to 29 and for 31.
abbrev pub exception_handlers : Handlers → List (Option ℕ)
exception_handlers h =
    some h.exception_de
    ∷ some h.exception_db
    ∷ some h.exception_nmi
    ∷ some h.exception_bp
    ∷ some h.exception_of
    ∷ some h.exception_br
    ∷ some h.exception_ud
    ∷ some h.exception_nm
    ∷ some h.exception_df
    ∷ some h.exception_co
    ∷ some h.exception_ts
    ∷ some h.exception_np
    ∷ some h.exception_ss
    ∷ some h.exception_gp
    ∷ some h.exception_pf
    ∷ none
    ∷ some h.exception_mf
    ∷ some h.exception_ac
    ∷ some h.exception_mc
    ∷ some h.exception_xm
    ∷ some h.exception_ve
    ∷ none
    ∷ none
    ∷ none
    ∷ none
    ∷ none
    ∷ none
    ∷ none
    ∷ none
    ∷ none
    ∷ some h.exception_sx
    ∷ none
    ∷ []

-- The handler of each vector.
abbrev pub handler_of : Handlers → ℕ → Option ℕ
handler_of h i =
    if ltb i 32
    then get_or (exception_handlers h) i none
    else if i == 0x20
    then some h.pit_handler
    else if i == 0x21
    then some h.keyboard_handler
    else if i == 0x28
    then some h.rtc_handler
    else if i == 0x80
    then some h.main_syscall
    else some h.generic_handler

-- A statement for each number below `n`, as a tuple.
abbrev Each : ℕ → (ℕ → Type 0) → Type 0
Each zero P = Unit
Each (suc n) P = P n × Each n P

module _ (h : Handlers) (interrupt syscall exception : Gate) (idt : Gates) (i : ℕ)
    (lt : i < 256) where
  abbrev own : Gate
  own = choose_gate (filled_in 0 0 interrupt) (filled_in 1 3 syscall) (filled_in 1 0 exception) i

abbrev IsEntry : Option ℕ → Gate → ℕ → Gate → Type 0
IsEntry o exception i g =
    (g.present ≡ 1)
    × (g.seg_selector ≡ 0x10)
    × (g.size ≡ 1)
    × (g.reserved0 ≡ 0)
    × (g.reserved1 ≡ 1)
    × (g.reserved2 ≡ 1)
    × (g.reserved3 ≡ (if ltb i 32 || i == 0x80 then 1 else 0))
    × (g.dpl ≡ (if i == 0x80 then 3 else 0))
    × ((a : ℕ) → o ≡ some a → a < 2 ^ 32 → target g ≡ a)
    × (o ≡ none → target g ≡ target exception)
