-- ===== src/Block.antt =====
-- The block operations of chapOS/student-distrib/lib.c: `memset`, `memset_word`, `memset_dword`,
-- `memcpy`, `memmove`, `clear_buf`. Each takes memory and returns it with the stores done; the
-- string instructions are loops on ECX. Addresses do not wrap round 2 ^ 32.
pub mod Fill
pub mod Copy
use chap_os.Common.{
  ℕ, zero, suc, ◌+◌, ◌-◌, ◌*◌, ◌/◌, ◌%◌, ◌^◌, Bool, true, false, ◌==◌, leb, if◌then◌else◌, Mem,
  store,
}

-- A little-endian store of the low 16, or of the low 32 bits of `v`.
abbrev pub store16 : Mem → ℕ → ℕ → Mem
store16 m p v = store (store m p (v % 2 ^ 8)) (p + 1) (v / 2 ^ 8 % 2 ^ 8)

abbrev pub store32 : Mem → ℕ → ℕ → Mem
store32 m p v = store16 (store16 m p (v % 2 ^ 16)) (p + 2) (v / 2 ^ 16 % 2 ^ 16)

-- `rep stosl` and `rep stosw`: ECX rounds of storing EAX or AX at EDI.
pub rep_stosl : ℕ → Mem → ℕ → ℕ → Mem
rep_stosl zero m edi eax = m
rep_stosl (suc ecx) m edi eax = rep_stosl ecx (store32 m edi eax) (edi + 4) eax

unfoldable pub rep_stosw : ℕ → Mem → ℕ → ℕ → Mem
rep_stosw zero m edi eax = m
rep_stosw (suc ecx) m edi eax = rep_stosw ecx (store16 m edi eax) (edi + 2) eax

-- `.memset_bottom`: EDX single bytes of AL.
pub memset_bottom : ℕ → Mem → ℕ → ℕ → Mem
memset_bottom zero m edi eax = m
memset_bottom (suc edx) m edi eax = memset_bottom edx (store m edi (eax % 2 ^ 8)) (edi + 1) eax

-- `.memset_aligned`: ECX / 4 double words, then the ECX % 4 bytes that are left.
pub memset_aligned : ℕ → Mem → ℕ → ℕ → Mem
memset_aligned ecx m edi eax =
    memset_bottom (ecx % 4) (rep_stosl (ecx / 4) m edi eax) (edi + 4 * (ecx / 4)) eax

-- `.memset_top`: single bytes until EDI is a multiple of 4 or none are left.
pub memset_top : ℕ → Mem → ℕ → ℕ → Mem
memset_top zero m edi eax = m
memset_top (suc ecx) m edi eax =
    if edi % 4 == 0
    then memset_aligned (suc ecx) m edi eax
    else memset_top ecx (store m edi (eax % 2 ^ 8)) (edi + 1) eax

-- The byte of `c` in each of the four places of EAX; `c & 0xFF` is `c % 2 ^ 8`, and the `|` is of
-- disjoint bits.
abbrev pub four_bytes : ℕ → ℕ
four_bytes c = c * 2 ^ 24 + c * 2 ^ 16 + c * 2 ^ 8 + c

pub memset : Mem → ℕ → ℕ → ℕ → Mem
memset m s c n = memset_top n m s (four_bytes (c % 2 ^ 8))

unfoldable pub memset_word : Mem → ℕ → ℕ → ℕ → Mem
memset_word m s c n = rep_stosw n m s c

unfoldable pub memset_dword : Mem → ℕ → ℕ → ℕ → Mem
memset_dword m s c n = rep_stosl n m s c

-- `rep movsl` upwards: a double word is read whole before it is stored.
abbrev pub move32 : Mem → ℕ → ℕ → Mem
move32 m edi esi =
    store (store (store (store m edi (m esi)) (edi + 1) (m (esi + 1))) (edi + 2) (m (esi + 2)))
      (edi + 3) (m (esi + 3))

pub rep_movsl : ℕ → Mem → ℕ → ℕ → Mem
rep_movsl zero m edi esi = m
rep_movsl (suc ecx) m edi esi = rep_movsl ecx (move32 m edi esi) (edi + 4) (esi + 4)

pub memcpy_bottom : ℕ → Mem → ℕ → ℕ → Mem
memcpy_bottom zero m edi esi = m
memcpy_bottom (suc edx) m edi esi = memcpy_bottom edx (store m edi (m esi)) (edi + 1) (esi + 1)

pub memcpy_aligned : ℕ → Mem → ℕ → ℕ → Mem
memcpy_aligned ecx m edi esi =
    memcpy_bottom (ecx % 4) (rep_movsl (ecx / 4) m edi esi) (edi + 4 * (ecx / 4))
      (esi + 4 * (ecx / 4))

pub memcpy_top : ℕ → Mem → ℕ → ℕ → Mem
memcpy_top zero m edi esi = m
memcpy_top (suc ecx) m edi esi =
    if edi % 4 == 0
    then memcpy_aligned (suc ecx) m edi esi
    else memcpy_top ecx (store m edi (m esi)) (edi + 1) (esi + 1)

pub memcpy : Mem → ℕ → ℕ → ℕ → Mem
memcpy m dest src n = memcpy_top n m dest src

-- `rep movsb`, upwards with the direction flag clear and downwards with it set.
pub rep_movsb_up : ℕ → Mem → ℕ → ℕ → Mem
rep_movsb_up zero m edi esi = m
rep_movsb_up (suc ecx) m edi esi = rep_movsb_up ecx (store m edi (m esi)) (edi + 1) (esi + 1)

pub rep_movsb_down : ℕ → Mem → ℕ → ℕ → Mem
rep_movsb_down zero m edi esi = m
rep_movsb_down (suc ecx) m edi esi = rep_movsb_down ecx (store m edi (m esi)) (edi - 1) (esi - 1)

-- Memory, and the direction flag that `memmove` returns with: `std` is not undone.
pub memmove : Mem → ℕ → ℕ → ℕ → Mem × Bool
memmove m dest src n =
    if leb dest src
    then (rep_movsb_up n m dest src, false)
    else (rep_movsb_down n m (dest + n - 1) (src + n - 1), true)

-- The loop of `clear_buf`: `((uint32_t *) buf)[i] = 0` for `left` more values of `i`.
pub clear_loop : ℕ → Mem → ℕ → ℕ → Mem
clear_loop zero m buf i = m
clear_loop (suc left) m buf i = clear_loop left (store32 m (buf + 4 * i) 0) buf (i + 1)

pub clear_buf : Mem → ℕ → ℕ → Mem
clear_buf m buf len = clear_loop len m buf 0
