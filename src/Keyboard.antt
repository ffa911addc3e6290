-- ===== src/Keyboard.antt =====
-- The keyboard of OSLab7-Mitjoslab4/kern/console.c. A byte that the keyboard controller gives is an argument; the
-- codes of the keys with a name are those of inc/kbdreg.h.
mod Tests
use homework_of_operating_sy.Base.{
  ℕ, zero, suc, ◌+◌, ◌-◌, ◌%◌, ◌^◌, Bool, false, ◌&&◌, Option, none, some, List, [], ◌∷◌, get_elem?,
  bit_and, bit_or, ltb, leb, ◌==◌, ◌!=◌, if◌then◌else◌,
}
use Prim.Native.Nat.{bit_xor}

-- SHIFT, CTL, ALT, CAPSLOCK, NUMLOCK, SCROLLLOCK, E0ESC
abbrev pub shift_bit : ℕ
shift_bit = 1

abbrev pub ctl_bit : ℕ
ctl_bit = 2

abbrev pub alt_bit : ℕ
alt_bit = 4

abbrev pub capslock : ℕ
capslock = 8

abbrev pub numlock : ℕ
numlock = 16

abbrev pub scrolllock : ℕ
scrolllock = 32

abbrev pub e0esc : ℕ
e0esc = 64

abbrev pub key_del : ℕ
key_del = 0xE9

-- The value of a place that an initialiser of a table names, or else 0
abbrev pub named : List (ℕ × ℕ) → ℕ → ℕ
named [] i = 0
named ((at, v) ∷ rest) i = if i == at then v else named rest i

-- A table whose initialiser has values from 0 on, and then named places
abbrev pub listed : List ℕ → List (ℕ × ℕ) → ℕ → ℕ
listed xs rest i = elim (get_elem? xs i) [ none ↦ named rest i | some v ↦ v ]

abbrev pub shiftcode : ℕ → ℕ
shiftcode = named (
    (0x1D, ctl_bit)
    ∷ (0x2A, shift_bit)
    ∷ (0x36, shift_bit)
    ∷ (0x38, alt_bit)
    ∷ (0x9D, ctl_bit)
    ∷ (0xB8, alt_bit)
    ∷ [])

abbrev pub togglecode : ℕ → ℕ
togglecode = named ((0x3A, capslock) ∷ (0x45, numlock) ∷ (0x46, scrolllock) ∷ [])

abbrev pub normalmap : ℕ → ℕ
normalmap =
    listed
      (0 ∷ 27 ∷ 49 ∷ 50 ∷ 51 ∷ 52 ∷ 53 ∷ 54 ∷ 55 ∷ 56 ∷ 57 ∷ 48 ∷ 45 ∷ 61 ∷ 8 ∷ 9 ∷ 113 ∷ 119 ∷ 101
        ∷ 114 ∷ 116 ∷ 121 ∷ 117 ∷ 105 ∷ 111 ∷ 112 ∷ 91 ∷ 93 ∷ 10 ∷ 0 ∷ 97 ∷ 115 ∷ 100 ∷ 102 ∷ 103
        ∷ 104 ∷ 106 ∷ 107 ∷ 108 ∷ 59 ∷ 39 ∷ 96 ∷ 0 ∷ 92 ∷ 122 ∷ 120 ∷ 99 ∷ 118 ∷ 98 ∷ 110 ∷ 109 ∷ 44
        ∷ 46 ∷ 47 ∷ 0 ∷ 42 ∷ 0 ∷ 32 ∷ 0 ∷ 0 ∷ 0 ∷ 0 ∷ 0 ∷ 0 ∷ 0 ∷ 0 ∷ 0 ∷ 0 ∷ 0 ∷ 0 ∷ 0 ∷ 55 ∷ 56
        ∷ 57 ∷ 45 ∷ 52 ∷ 53 ∷ 54 ∷ 43 ∷ 49 ∷ 50 ∷ 51 ∷ 48 ∷ 46 ∷ 0 ∷ 0 ∷ 0 ∷ 0 ∷ [])
      ((0xC7, 0xE0)
        ∷ (0x9C, 0xA)
        ∷ (0xB5, 0x2F)
        ∷ (0xC8, 0xE2)
        ∷ (0xC9, 0xE6)
        ∷ (0xCB, 0xE4)
        ∷ (0xCD, 0xE5)
        ∷ (0xCF, 0xE1)
        ∷ (0xD0, 0xE3)
        ∷ (0xD1, 0xE7)
        ∷ (0xD2, 0xE8)
        ∷ (0xD3, 0xE9)
        ∷ [])

abbrev pub shiftmap : ℕ → ℕ
shiftmap =
    listed
      (0 ∷ 27 ∷ 33 ∷ 64 ∷ 35 ∷ 36 ∷ 37 ∷ 94 ∷ 38 ∷ 42 ∷ 40 ∷ 41 ∷ 95 ∷ 43 ∷ 8 ∷ 9 ∷ 81 ∷ 87 ∷ 69
        ∷ 82 ∷ 84 ∷ 89 ∷ 85 ∷ 73 ∷ 79 ∷ 80 ∷ 123 ∷ 125 ∷ 10 ∷ 0 ∷ 65 ∷ 83 ∷ 68 ∷ 70 ∷ 71 ∷ 72 ∷ 74
        ∷ 75 ∷ 76 ∷ 58 ∷ 34 ∷ 126 ∷ 0 ∷ 124 ∷ 90 ∷ 88 ∷ 67 ∷ 86 ∷ 66 ∷ 78 ∷ 77 ∷ 60 ∷ 62 ∷ 63 ∷ 0
        ∷ 42 ∷ 0 ∷ 32 ∷ 0 ∷ 0 ∷ 0 ∷ 0 ∷ 0 ∷ 0 ∷ 0 ∷ 0 ∷ 0 ∷ 0 ∷ 0 ∷ 0 ∷ 0 ∷ 55 ∷ 56 ∷ 57 ∷ 45 ∷ 52
        ∷ 53 ∷ 54 ∷ 43 ∷ 49 ∷ 50 ∷ 51 ∷ 48 ∷ 46 ∷ 0 ∷ 0 ∷ 0 ∷ 0 ∷ [])
      ((0xC7, 0xE0)
        ∷ (0x9C, 0xA)
        ∷ (0xB5, 0x2F)
        ∷ (0xC8, 0xE2)
        ∷ (0xC9, 0xE6)
        ∷ (0xCB, 0xE4)
        ∷ (0xCD, 0xE5)
        ∷ (0xCF, 0xE1)
        ∷ (0xD0, 0xE3)
        ∷ (0xD1, 0xE7)
        ∷ (0xD2, 0xE8)
        ∷ (0xD3, 0xE9)
        ∷ [])

abbrev pub ctlmap : ℕ → ℕ
ctlmap =
    listed
      (0 ∷ 0 ∷ 0 ∷ 0 ∷ 0 ∷ 0 ∷ 0 ∷ 0 ∷ 0 ∷ 0 ∷ 0 ∷ 0 ∷ 0 ∷ 0 ∷ 0 ∷ 0 ∷ 17 ∷ 23 ∷ 5 ∷ 18 ∷ 20 ∷ 25
        ∷ 21 ∷ 9 ∷ 15 ∷ 16 ∷ 0 ∷ 0 ∷ 13 ∷ 0 ∷ 1 ∷ 19 ∷ 4 ∷ 6 ∷ 7 ∷ 8 ∷ 10 ∷ 11 ∷ 12 ∷ 0 ∷ 0 ∷ 0 ∷ 0
        ∷ 28 ∷ 26 ∷ 24 ∷ 3 ∷ 22 ∷ 2 ∷ 14 ∷ 13 ∷ 0 ∷ 0 ∷ 239 ∷ 0 ∷ 0 ∷ [])
      ((0x97, 0xE0)
        ∷ (0xB5, 0xEF)
        ∷ (0xC8, 0xE2)
        ∷ (0xC9, 0xE6)
        ∷ (0xCB, 0xE4)
        ∷ (0xCD, 0xE5)
        ∷ (0xCF, 0xE1)
        ∷ (0xD0, 0xE3)
        ∷ (0xD1, 0xE7)
        ∷ (0xD2, 0xE8)
        ∷ (0xD3, 0xE9)
        ∷ [])

-- charcode[i]
abbrev pub charcode : ℕ → ℕ → ℕ
charcode i = if i == 0 then normalmap else (if i == 1 then shiftmap else ctlmap)

-- `~v` of 32 bits
abbrev pub complement : ℕ → ℕ
complement v = 2 ^ 32 - 1 - v

-- What a byte leads to: the char that kbd_proc_data returns, the new `shift`, and whether it reboots the machine
pub record Decoded : Type 0 where
  pub char : ℕ
  pub shift : ℕ
  pub reboots : Bool

-- The letter of the other case under CAPSLOCK
abbrev pub swap_case : ℕ → ℕ
swap_case c = if leb 97 c && leb c 122 then c - 32 else (if leb 65 c && leb c 90 then c + 32 else c)

abbrev pub with_case : ℕ → ℕ → ℕ
with_case shift c = if bit_and shift capslock != 0 then swap_case c else c

-- The end of kbd_proc_data, with the new `shift` and the char
abbrev pub special : ℕ → ℕ → Decoded
special shift c = record {
  char = c;
  shift = shift;
  reboots = bit_and (complement shift) (bit_or ctl_bit alt_bit) == 0 && c == key_del;
}

-- A key that is pressed, by its code in the tables and `shift` without E0ESC
abbrev pub shifted : ℕ → ℕ → ℕ
shifted shift byte = bit_xor (bit_or shift (shiftcode byte)) (togglecode byte)

unfoldable pub pressed : ℕ → ℕ → Decoded
pressed shift byte =
    let now = shifted shift byte in
    special now (with_case now (charcode (bit_and now (bit_or ctl_bit shift_bit)) byte))

-- A key that is released
abbrev pub released : ℕ → ℕ → Decoded
released shift byte =
    let code = if bit_and shift e0esc != 0 then byte else bit_and byte 0x7F in
    record {
      char = 0;
      shift = bit_and shift (complement (bit_or (shiftcode code) e0esc));
      reboots = false;
    }

-- kbd_proc_data for a byte of the controller
unfoldable pub kbd_proc_data : ℕ → ℕ → Decoded
unfolding pressed
kbd_proc_data shift byte =
    if byte == 0xE0
    then record { char = 0; shift = bit_or shift e0esc; reboots = false }
    else (if bit_and byte 0x80 != 0
        then released shift byte
        else (if bit_and shift e0esc != 0
            then pressed (bit_and shift (complement e0esc)) (bit_or byte 0x80)
            else pressed shift byte))

-- kbd_intr: the chars of the bytes that are waiting, and the new `shift`
unfoldable pub kbd_chars : ℕ → List ℕ → List ℕ × ℕ
unfolding kbd_proc_data
kbd_chars shift [] = ([], shift)
kbd_chars shift (byte ∷ rest) =
    let d = kbd_proc_data shift byte in
    let more = kbd_chars d.shift rest in (d.char ∷ more.0, more.1)
