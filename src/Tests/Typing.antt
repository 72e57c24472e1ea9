-- ===== src/Tests/Typing.antt =====
-- The keyboard's and the screen's theorems on the console with the line "ok".
use chap_os.Common.{
  ℕ, ◌+◌, ◌<◌, ◌≡◌, refl, arith, inl, false, ◌==◌, some, List, [], ◌∷◌, if◌then◌else◌, pos, store,
}
use chap_os.Screen.{move_screen_up, putc, puts}
use chap_os.Screen.Scroll.{move_screen_up-scrolled}
use chap_os.Screen.Cursor.{InScreen, putc-InScreen}
use chap_os.Screen.Puts.{put_all, puts-put_all}
use chap_os.Text.Length.{IsText}
use chap_os.Keyboard.{Console, press_enter, press_caps, press_shift, unpress_shift, read_line}
use chap_os.Keyboard.Line.{Holds, line_buffer, received, read_line-typed, read_line-full}
use chap_os.Keyboard.Modes.{shift_of, caps_of, modifier_keys}
use chap_os.Keyboard.Terminal.{terminal_change}
use chap_os.Keyboard.Handler.{handle_key}
use chap_os.Keyboard.Switching.{IsMapped, switched, terminal_change-back}
use chap_os.Keyboard.Keys.{IsConsole}
use chap_os.Keyboard.Invariant.{Handled, handle_key-Handled}
use chap_os.Paging.{term_vir_addr}
use chap_os.Paging.Translate.{translate, through_dir, through_table}
use chap_os.Tests.{image, screen, layout, idle_term, idle_console}

abbrev ok_line : List ℕ
ok_line = b'k' ∷ b'o' ∷ []

ok_Holds : Holds idle_console (b'k' ∷ b'o' ∷ [])
ok_Holds = record { index = refl; spelled = (refl, (refl, tt)) }

read_line-typed_example :
    ((read_line 200000 (pos 10) (press_enter idle_console)).0 ≡ pos 2)
    × ((read_line 200000 (pos 10) (press_enter idle_console)).1.display.mem
        ≡ received
            (store (line_buffer idle_console) 2 0)
            200000
            3
            (press_enter idle_console).display.mem)
    × ((read_line 200000 (pos 10) (press_enter idle_console)).1.buffer_index ≡ 0)
read_line-typed_example =
    read_line-typed 200000 10 idle_console (omega arith) (λ k lt. ground arith)

abbrev full_console : Console
full_console = record idle_console { buffers = λ t i. b'z'; buffer_index = 128 }

read_line-full_example :
    (line_buffer (press_enter full_console) 128 ≡ 0)
    × ((read_line 200000 (pos 128) (press_enter full_console)).0 ≡ pos 0)
    × ((read_line 200000 (pos 128) (press_enter full_console)).1.display.mem
        ≡ received (line_buffer full_console) 200000 128 (press_enter full_console).display.mem)
read_line-full_example =
    read_line-full 200000 128 full_console refl (λ k lt. ground arith) (omega arith)

modifier_keys_example :
    ((shift_of (press_caps idle_console) ≡ 0) × (caps_of (press_caps idle_console) ≡ 0))
    × ((shift_of (press_shift idle_console) ≡ 1) × (caps_of (press_shift idle_console) ≡ 1))
    × ((shift_of (unpress_shift idle_console) ≡ 0) × (caps_of (unpress_shift idle_console) ≡ 0))
    × (((press_caps idle_console).keyboard_mode < 4)
        × ((press_shift idle_console).keyboard_mode < 4)
        × ((unpress_shift idle_console).keyboard_mode < 4))
modifier_keys_example = modifier_keys idle_console (omega arith)

move_screen_up-scrolled_example : move_screen_up image 0xB8000 ≡ image (0xB8000 + 160)
move_screen_up-scrolled_example = move_screen_up-scrolled image 0xB8000

screen-InScreen : InScreen screen
screen-InScreen = record { column = omega arith; row = omega arith }

putc-InScreen_example : InScreen (putc b'a' screen)
putc-InScreen_example = putc-InScreen b'a' screen screen-InScreen

f_IsText : IsText image 300 1
f_IsText = record { ends = refl; nonzero = λ i lt. ground arith }

puts-put_all_example : puts 2 300 screen ≡ some (1, put_all image 300 1 screen)
puts-put_all_example =
    puts-put_all 2 300 1 screen screen-InScreen f_IsText (omega arith) (inl (omega arith))

-- The console with video memory and the terminals mapped as the kernel does at start.
abbrev mapped_console : Console
mapped_console = record idle_console {
  terminals = λ t. record idle_term { term_vid_mem = term_vir_addr };
  paging = record {
    page_dir = λ i. if i == 0 then 0x1003 else if i == 33 then 0x2007 else 0;
    page_table = λ i. if i == 0xB8 then 0xB8003 else 0;
    user_page_table = λ i. if i == 1 then 0x1C00007 else 0;
    stale = false;
  };
}

mapped_console-IsMapped : IsMapped layout mapped_console
unfolding translate through_dir through_table
mapped_console-IsMapped = record {
  laid_out = record { page_table_aligned = refl; user_aligned = refl; distinct = ground arith };
  shown = refl;
  kernel_table = ground arith;
  pages = λ id. refl;
}

mapped_console-IsConsole : IsConsole layout mapped_console
unfolding translate through_dir through_table
mapped_console-IsConsole = record {
  mode = omega arith;
  index = omega arith;
  on_screen = screen-InScreen;
  current = omega arith;
  saved = λ id. record { column = omega arith; row = omega arith; line = omega arith };
  mapped = mapped_console-IsMapped;
  own_page = refl;
}

alt_IsConsole : IsConsole layout (record mapped_console { alt_flag = 5 })
alt_IsConsole =
    let v : IsConsole layout mapped_console = mapped_console-IsConsole in
    record {
      mode = v.mode;
      index = v.index;
      on_screen = v.on_screen;
      current = v.current;
      saved = v.saved;
      mapped = record {
        laid_out = v.mapped.laid_out;
        shown = v.mapped.shown;
        kernel_table = v.mapped.kernel_table;
        pages = v.mapped.pages;
      };
      own_page = v.own_page;
    }

-- F2 with the alternate key down.
handle_key-Handled_example :
    Handled layout (handle_key layout 0x3C (record mapped_console { alt_flag = 5 }))
handle_key-Handled_example =
    handle_key-Handled layout 0x3C (record mapped_console { alt_flag = 5 }) alt_IsConsole

terminal_change-back_example :
    let c1 = switched layout 1 mapped_console in
    let c2 = switched layout 0 c1 in
    (terminal_change layout 1 mapped_console ≡ some (pos 0, c1))
    × (terminal_change layout 0 c1 ≡ some (pos 0, c2))
    × (c2.display.mem 0xB8002 ≡ image 0xB8002)
    × (c2.display.screen_x ≡ 79)
    × (c2.display.screen_y ≡ 24)
    × (c2.buffer_index ≡ 2)
    × (c2.cur_term_id ≡ 0)
terminal_change-back_example =
    terminal_change-back layout 1 0xB8002 mapped_console (omega arith) (omega arith) (ground arith)
      screen-InScreen mapped_console-IsMapped (omega arith) (omega arith)
