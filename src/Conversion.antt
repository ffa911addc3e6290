-- ===== src/Conversion.antt =====
-- The conversions of formatted output, of OSLab7-Mitjoslab4/lib/printfmt.c: what each puts. What `putch` gets and what `csa` is
-- set to is a list of events; an int is its bit pattern.
use homework_of_operating_sy.Base.{
  ℕ, zero, suc, ◌+◌, ◌-◌, ◌*◌, ◌%◌, ◌^◌, Bool, true, false, not, ◌&&◌, ◌||◌, Option, none, some,
  List, [], ◌∷◌, ◌++◌, map, get_elem?, leb, ltb, ◌==◌, if◌then◌else◌,
}
use homework_of_operating_sy.Strings.{Bytes, strnlen}
use homework_of_operating_sy.Numbers.{printnum, padding}

pub data Event : Type 0 where
  put set_csa : ℕ → Event

-- The cases of the switch
pub data Conv : Type 0 where
  minus zero_pad digit star dot sharp long char error string decimal unsigned octal pointer
        hexadecimal percent colour other :
      Conv

abbrev pub conv : ℕ → Conv
conv ch =
    if leb 49 ch && leb ch 57
    then digit
    else (if ch == 45
        then minus
        else (if ch == 48
            then zero_pad
            else (if ch == 42
                then star
                else (if ch == 46
                    then dot
                    else (if ch == 35
                        then sharp
                        else (if ch == 108
                            then long
                            else (if ch == 99
                                then char
                                else (if ch == 101
                                    then error
                                    else (if ch == 115
                                        then string
                                        else (if ch == 100
                                            then decimal
                                            else (if ch == 117
                                                then unsigned
                                                else (if ch == 111
                                                    then octal
                                                    else (if ch == 112
                                                        then pointer
                                                        else (if ch == 120
                                                            then hexadecimal
                                                            else (if ch == 37
                                                            then percent
                                                            else (if ch == 109
                                                            then colour
                                                            else other))))))))))))))))

-- error_string; the empty list is NULL
abbrev pub error_string : ℕ → List ℕ
error_string err =
    if err == 1
    then 117 ∷ 110 ∷ 115 ∷ 112 ∷ 101 ∷ 99 ∷ 105 ∷ 102 ∷ 105 ∷ 101 ∷ 100 ∷ 32 ∷ 101 ∷ 114 ∷ 114 ∷ 111
      ∷ 114 ∷ []
    else (if err == 2
        then 98 ∷ 97 ∷ 100 ∷ 32 ∷ 101 ∷ 110 ∷ 118 ∷ 105 ∷ 114 ∷ 111 ∷ 110 ∷ 109 ∷ 101 ∷ 110 ∷ 116
          ∷ []
        else (if err == 3
            then 105 ∷ 110 ∷ 118 ∷ 97 ∷ 108 ∷ 105 ∷ 100 ∷ 32 ∷ 112 ∷ 97 ∷ 114 ∷ 97 ∷ 109 ∷ 101 ∷ 116
              ∷ 101 ∷ 114 ∷ []
            else (if err == 4
                then 111 ∷ 117 ∷ 116 ∷ 32 ∷ 111 ∷ 102 ∷ 32 ∷ 109 ∷ 101 ∷ 109 ∷ 111 ∷ 114 ∷ 121 ∷ []
                else (if err == 5
                    then 111 ∷ 117 ∷ 116 ∷ 32 ∷ 111 ∷ 102 ∷ 32 ∷ 101 ∷ 110 ∷ 118 ∷ 105 ∷ 114 ∷ 111
                      ∷ 110 ∷ 109 ∷ 101 ∷ 110 ∷ 116 ∷ 115 ∷ []
                    else (if err == 6
                        then 115 ∷ 101 ∷ 103 ∷ 109 ∷ 101 ∷ 110 ∷ 116 ∷ 97 ∷ 116 ∷ 105 ∷ 111 ∷ 110
                          ∷ 32 ∷ 102 ∷ 97 ∷ 117 ∷ 108 ∷ 116 ∷ []
                        else (if err == 7
                            then 101 ∷ 110 ∷ 118 ∷ 32 ∷ 105 ∷ 115 ∷ 32 ∷ 110 ∷ 111 ∷ 116 ∷ 32 ∷ 114
                              ∷ 101 ∷ 99 ∷ 118 ∷ 105 ∷ 110 ∷ 103 ∷ []
                            else (if err == 8
                                then 117 ∷ 110 ∷ 101 ∷ 120 ∷ 112 ∷ 101 ∷ 99 ∷ 116 ∷ 101 ∷ 100 ∷ 32
                                  ∷ 101 ∷ 110 ∷ 100 ∷ 32 ∷ 111 ∷ 102 ∷ 32 ∷ 102 ∷ 105 ∷ 108 ∷ 101
                                  ∷ []
                                else [])))))))

abbrev pub maxerror : ℕ
maxerror = 9

-- "error "
abbrev pub error_text : List ℕ
error_text = 101 ∷ 114 ∷ 114 ∷ 111 ∷ 114 ∷ 32 ∷ []

-- "(null)"
abbrev pub null_text : List ℕ
null_text = 40 ∷ 110 ∷ 117 ∷ 108 ∷ 108 ∷ 41 ∷ []

-- The variables of an escape sequence
pub record Spec : Type 0 where
  pub padc : ℕ
  pub width : ℕ
  pub precision : ℕ
  pub lflag : ℕ
  pub altflag : Bool

abbrev pub int_max : ℕ
int_max = 2 ^ 31 - 1

abbrev pub minus_one : ℕ
minus_one = 2 ^ 32 - 1

abbrev pub negative : ℕ → Bool
negative v = ltb int_max v

-- The number of rounds of a loop that counts `v` down while it is above 0
abbrev pub rounds : ℕ → ℕ
rounds v = if negative v then 0 else v

abbrev pub new_spec : Spec
new_spec = record {
  padc = 32;
  width = minus_one;
  precision = minus_one;
  lflag = 0;
  altflag = false;
}

-- process_precision
abbrev pub process_precision : ℕ → Spec → Spec
process_precision v s =
    if negative s.width
    then record s { width = v; precision = minus_one }
    else record s { precision = v }

-- The loop of the width field: the number, and the place of the char behind it
unfoldable pub read_width : ℕ → Bytes → ℕ → ℕ → ℕ → Option (ℕ × ℕ)
read_width zero m ch v fmt = none
read_width (suc fuel) m ch v fmt =
    let v' = (v * 10 + ch + 2 ^ 32 - 48) % 2 ^ 32 in
    let rest = read_width fuel m (m fmt) v' (fmt + 1) in
    if ltb (m fmt) 48 || ltb 57 (m fmt) then some (v', fmt) else rest

-- getuint, and getint as a 64-bit pattern
abbrev pub getuint : ℕ → ℕ → ℕ
getuint lflag v = if leb 2 lflag then v % 2 ^ 64 else v % 2 ^ 32

abbrev pub getint : ℕ → ℕ → ℕ
getint lflag v =
    if leb 2 lflag
    then v % 2 ^ 64
    else (if negative (v % 2 ^ 32) then v % 2 ^ 32 + 2 ^ 64 - 2 ^ 32 else v % 2 ^ 32)

-- The chars of a string, from its start
abbrev pub chars_at : Bytes → ℕ → ℕ → ℕ
chars_at m p i = m (p + i)

abbrev pub byte_or_null : Option ℕ → ℕ
byte_or_null none = 0
byte_or_null (some c) = c

abbrev pub chars_of : List ℕ → ℕ → ℕ
chars_of xs i = byte_or_null (get_elem? xs i)

-- A `char` as the int that putch gets
abbrev pub char_code : ℕ → ℕ
char_code c = if leb 128 c then c + 2 ^ 32 - 2 ^ 8 else c

-- A char of a string as it is put
abbrev pub shown : Bool → ℕ → Event
shown alt c = if alt && (ltb c 32 || ltb 126 c) then put 63 else put (char_code c)

abbrev pub with_first : Event → Option (List Event × ℕ) → Option (List Event × ℕ)
with_first x none = none
with_first x (some (xs, w)) = some (x ∷ xs, w)

-- The loop over the chars of a string: what it puts, and the width that is left
unfoldable pub put_text : ℕ → Bool → (ℕ → ℕ) → ℕ → ℕ → ℕ → Option (List Event × ℕ)
put_text zero alt src i precision width = none
put_text (suc fuel) alt src i precision width = elim (src i == 0 || precision == 0) [
  | true ↦ some ([], width)
  | false ↦ with_first (shown alt (src i)) (
      put_text fuel alt src (i + 1) (if negative precision then precision else precision - 1)
        ((width + minus_one) % 2 ^ 32))
]

-- The spaces behind a string
abbrev pub with_spaces : Option (List Event × ℕ) → Option (List Event)
with_spaces none = none
with_spaces (some (xs, w)) = some (xs ++ map put (padding (rounds w) 32))

abbrev pub behind : List Event → Option (List Event) → Option (List Event)
behind xs none = none
behind xs (some ys) = some (xs ++ ys)

-- The case of a string
unfoldable pub put_string : ℕ → Spec → (ℕ → ℕ) → Option (List Event)
unfolding put_text strnlen
put_string fuel s src =
    let left = (s.width + 2 ^ 32 - strnlen src 0 s.precision) % 2 ^ 32 in
    let padded = not (negative s.width) && not (s.width == 0) && not (s.padc == 45) in
    if padded
    then behind (map put (padding (rounds left) s.padc)) (
        with_spaces (put_text fuel s.altflag src 0 s.precision (if negative left then left else 0)))
    else with_spaces (put_text fuel s.altflag src 0 s.precision s.width)

-- printnum, whose numbers have at most 64 digits
abbrev pub put_chars : Option (List ℕ) → Option (List Event)
put_chars none = none
put_chars (some cs) = some (map put cs)

abbrev pub number : Spec → ℕ → ℕ → Option (List Event)
number s base num = put_chars (printnum 65 num base (rounds s.width) s.padc)

-- The case of a signed number
abbrev pub signed_number : Spec → ℕ → Option (List Event)
signed_number s num =
    if ltb (2 ^ 63 - 1) num
    then behind (put 45 ∷ []) (number s 10 (2 ^ 64 - num))
    else number s 10 num

abbrev pub reset_csa : Event
reset_csa = set_csa 0x0700

abbrev pub closed : Option (List Event) → Option (List Event)
closed none = none
closed (some xs) = some (xs ++ reset_csa ∷ [])

-- printfmt of "error %d", and of "%s", which end with a reset of `csa`
unfoldable pub put_error : ℕ → ℕ → Option (List Event)
unfolding put_string printnum
put_error fuel v =
    let err = if negative v then 2 ^ 32 - v else v in
    if negative err
    then none
    else (if leb maxerror err || err == 0
        then closed (behind (map put error_text) (signed_number new_spec err))
        else closed (put_string fuel new_spec (chars_of (error_string err))))
