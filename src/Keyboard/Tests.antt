-- ===== src/Keyboard/Tests.antt =====
-- Keys as they are pressed and released.
use homework_of_operating_sy.Base.{◌≡◌, refl, true, [], ◌∷◌}
use homework_of_operating_sy.Keyboard.{kbd_chars, kbd_proc_data, pressed}

-- A, with SHIFT, with CAPSLOCK, and with both
letters :
    (kbd_chars 0 (0x1E ∷ 0x9E ∷ 0x2A ∷ 0x1E ∷ 0xAA ∷ 0x3A ∷ 0x1E ∷ 0x2A ∷ 0x1E ∷ [])).0
    ≡ 97 ∷ 0 ∷ 0 ∷ 65 ∷ 0 ∷ 0 ∷ 65 ∷ 0 ∷ 97 ∷ []
unfolding kbd_chars kbd_proc_data pressed
letters = refl

-- The cursor key up, and CTL with C
others :
    (kbd_chars 0 (0xE0 ∷ 0x48 ∷ 0x1D ∷ 0x2E ∷ 0x9D ∷ 0x2E ∷ [])).0 ≡ 0 ∷ 0xE2 ∷ 0 ∷ 3 ∷ 0 ∷ 99 ∷ []
unfolding kbd_chars kbd_proc_data pressed
others = refl

-- CTL, ALT and the key Del
reboot : (kbd_proc_data 70 0x53).reboots ≡ true
unfolding kbd_proc_data pressed
reboot = refl
