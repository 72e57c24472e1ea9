-- ===== src/Process/Arguments.antt =====
-- `getargs` and `vidmap`: what they write to the caller's memory.
use chap_os.Common.{
  ℕ, suc, ◌+◌, ◌%◌, ◌<◌, ◌≤◌, ◌≡◌, ◌≢◌, ◌⊎◌, refl, arith, inl, inr, Bool-cases, true, false, some,
  ◌==◌, if◌then◌else◌, copied, load32, ltb, leb, ℤ, pos, minus_one,
}
use chap_os.Text.Length.{IsText, strlen_total}
use chap_os.Text.Copy.{strcpy-copied}
use chap_os.Process.{Kernel, mem_of, set_mem, arg_buff_at, shorter, getargs, vidmap}
use chap_os.Paging.{Layout}
use chap_os.Paging.Translate.{translate}
use chap_os.Paging.Maps.{IsLaidOut, translate-new_user_vid_page}

-- For an argument of `n` bytes and a `buf` that is not null and does not start behind the argument's
-- first byte inside the `n + 1` bytes, with fuel for one byte more, `getargs` returns 0 once it has copied the
-- argument and its zero byte, `n + 1` bytes, to `buf`, unless the size is smaller than `n` as an
-- unsigned word: then it returns -1 and copies nothing. A size of `n`, or a negative one, does not
-- keep it from writing `n + 1` bytes.
pub getargs-copied :
    (fuel buf n : ℕ) (nbytes : ℤ) (k : Kernel)
    → buf ≢ 0
    → IsText (mem_of k) (arg_buff_at k.active_proc_num) n
    → (buf ≤ arg_buff_at k.active_proc_num) ⊎ (arg_buff_at k.active_proc_num + n < buf)
    → n < fuel
    → getargs fuel buf nbytes k
      ≡ some (
          if shorter nbytes n
          then (minus_one, k)
          else (pos 0, set_mem (copied (mem_of k) buf (arg_buff_at k.active_proc_num) (suc n)) k))
unfolding getargs
getargs-copied fuel buf n nbytes k real t apart enough =
    let a : ℕ = arg_buff_at k.active_proc_num in
    let given : (buf == 0) ≡ false = ground arith in
    elim (Bool-cases (shorter nbytes n)) [
      | inl e ↦ rw (given, strlen_total fuel (mem_of k) a n t enough, e) refl
      | inr e ↦
          rw
            (
              given,
              strlen_total fuel (mem_of k) a n t enough,
              e,
              strcpy-copied fuel (mem_of k) buf a n t apart enough,
            )
            refl
    ]

-- For a pointer into the user's 4 MB `vidmap` returns 0x8400000 and writes it to the caller's word, and
-- from then on the page there is the page of video memory, open to user code.
pub vidmap-shown :
    (l : Layout) (screen_start word_at offset : ℕ) (k : Kernel)
    → IsLaidOut l
    → 0x8000000 ≤ screen_start
    → screen_start < 0x8400000
    → offset < 4096
    → let (result, k') = vidmap l screen_start word_at k in
      (result ≡ pos 0x8400000)
      × (load32 (mem_of k') word_at ≡ 0x8400000)
      × (translate l k'.console.paging (0x8400000 + offset)
          ≡ some (record { physical = 0xB8000 + offset; user = true }))
unfolding vidmap
vidmap-shown l screen_start word_at offset k v lo hi small =
    let low : ltb screen_start 0x8000000 ≡ false = ground arith in
    let high : leb 0x8400000 screen_start ≡ false = ground arith in
    let (_, _, page, _) =
      translate-new_user_vid_page l k.console.paging 0x8400000 (0x8400000 + offset) v in
    let same : (0x8400000 + offset) % 4096 ≡ offset = omega arith in
    rw (low, high) (refl, ground arith, rw same at (page (omega arith)))
