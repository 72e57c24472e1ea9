-- ===== src/Idt/Entries.antt =====
-- What each step of `init_idt` leaves at a vector.
use chap_os.Common.{
  ℕ, zero, suc, ◌+◌, ◌*◌, ◌/◌, ◌%◌, ◌^◌, ◌≡◌, refl, ◌∙◌, arith, Option, none, some, List, [], ◌∷◌,
  ◌==◌, if◌then◌else◌, within,
}
use chap_os.Idt.{Gate, Gates, set_gate, set_idt_entry, fill_gates, set_generic, set_entries}

-- The address that a gate leads to.
abbrev pub target : Gate → ℕ
target g = g.offset_31_16 * 2 ^ 16 + g.offset_15_00

-- The gate with another address.
abbrev aimed : ℕ → Gate → Gate
aimed handler g = record g {
  offset_31_16 = handler / 2 ^ 16 % 2 ^ 16;
  offset_15_00 = handler % 2 ^ 16;
}

pub fill_gates-at :
    (left lo i : ℕ) (g : ℕ → Gate) (idt : Gates)
    → fill_gates left lo g idt i ≡ (if within lo left i then g i else idt i)
unfolding fill_gates
fill_gates-at zero lo i g idt = ground arith
fill_gates-at (suc left) lo i g idt =
    ground (arith, fill_gates-at left (lo + 1) i g (set_gate lo (g lo) idt))

pub set_idt_entry-at :
    (v handler i : ℕ) (idt : Gates)
    → set_idt_entry v handler idt i ≡ (if i == v then aimed handler (idt i) else idt i)
unfolding set_idt_entry
set_idt_entry-at v handler i idt = ground arith

pub set_generic-at :
    (left lo handler i : ℕ) (idt : Gates)
    → set_generic left lo handler idt i
      ≡ (if within lo left i then aimed handler (idt i) else idt i)
unfolding set_generic
set_generic-at zero lo handler i idt = ground arith
set_generic-at (suc left) lo handler i idt = ground (
  arith,
  set_generic-at left (lo + 1) handler i (set_idt_entry lo handler idt),
  set_idt_entry-at lo handler i idt,
)

-- The handler that a sequence of entries leaves for vector `i`, the last one counting.
unfoldable pub entry_for : List (ℕ × ℕ) → ℕ → Option ℕ
entry_for [] i = none
entry_for ((v, handler) ∷ es) i = elim (entry_for es i) [
  | some a ↦ some a
  | none ↦ if i == v then some handler else none
]

abbrev pub aimed_at : Option ℕ → Gate → Gate
aimed_at none g = g
aimed_at (some a) g = aimed a g

pub set_entries-at :
    (es : List (ℕ × ℕ)) (i : ℕ) (idt : Gates)
    → set_entries es idt i ≡ aimed_at (entry_for es i) (idt i)
unfolding set_entries entry_for
set_entries-at [] i idt = refl
set_entries-at ((v, handler) ∷ es) i idt =
    set_entries-at es i (set_idt_entry v handler idt)
    ∙ ground (arith, set_idt_entry-at v handler i idt)
