-- ===== src/Keyboard/Modes.antt =====
-- The modifier keys and the scan code table of keyboard.c.
use chap_os.Common.{
  ℕ, ◌-◌, ◌/◌, ◌%◌, ◌<◌, ◌≡◌, ◌⊎◌, refl, arith, Bool, true, false, ◌&&◌, leb, ◌==◌, if◌then◌else◌,
  tested, tested_at,
}
use chap_os.Keyboard.{Console, press_caps, press_shift, unpress_shift, scancode_array}

-- The mode is two bits: the shift key's is the lower one, the caps lock's the upper.
abbrev pub shift_of : Console → ℕ
shift_of c = c.keyboard_mode % 2

abbrev pub caps_of : Console → ℕ
caps_of c = c.keyboard_mode / 2

-- In any of the four modes the caps key flips caps lock and keeps shift. Pressing shift sets shift,
-- and keeps caps lock only if shift was up; releasing it clears shift, and keeps caps lock only if
-- shift was down. Otherwise caps lock is lost. No key leaves the four modes.
pub modifier_keys :
    (c : Console)
    → c.keyboard_mode < 4
    → ((shift_of (press_caps c) ≡ shift_of c) × (caps_of (press_caps c) ≡ 1 - caps_of c))
      × ((shift_of (press_shift c) ≡ 1)
          × (caps_of (press_shift c) ≡ (if shift_of c == 0 then caps_of c else 0)))
      × ((shift_of (unpress_shift c) ≡ 0)
          × (caps_of (unpress_shift c) ≡ (if shift_of c == 1 then caps_of c else 0)))
      × (((press_caps c).keyboard_mode < 4)
          × ((press_shift c).keyboard_mode < 4)
          × ((unpress_shift c).keyboard_mode < 4))
unfolding press_caps press_shift unpress_shift
modifier_keys c h = ground arith

abbrev pub is_lower : ℕ → Bool
is_lower k = leb b'a' k && leb k b'z'

abbrev pub case_law : ℕ → Bool
case_law key =
    let plain = scancode_array 0 key in
    let shift = scancode_array 1 key in
    let caps = scancode_array 2 key in
    let both = scancode_array 3 key in
    if is_lower plain
    then shift == plain - 32 && (caps == shift && both == plain)
    else caps == plain && both == shift

case_table : tested 87 case_law ≡ true
unfolding tested scancode_array
case_table = refl

-- Caps lock acts on letters alone. For a key that gives a small letter, shift gives the capital, caps
-- lock gives what shift gives, and both together give the small letter; for every other key the
-- table with caps lock is the one without.
caps_lock_letters :
    (key : ℕ)
    → key < 87
    → let plain = scancode_array 0 key in
      let shift = scancode_array 1 key in
      let lower = is_lower plain in
      ((lower ≡ false) ⊎ (shift ≡ plain - 32))
      × (scancode_array 2 key ≡ (if lower then shift else plain))
      × (scancode_array 3 key ≡ (if lower then plain else shift))
caps_lock_letters key h =
    let law : case_law key ≡ true = tested_at 87 case_law key case_table h in ground arith
