-- ===== src/Strings/Tests.antt =====
-- Copies between regions that overlap, in both directions, and a string's length.
use homework_of_operating_sy.Base.{◌%◌, ◌^◌, ◌≡◌, refl, some}
use homework_of_operating_sy.Strings.{Bytes, memmove, memcmp, strlen, copy_up, copy_down}

abbrev counting : Bytes
counting a = a % 2 ^ 8

up : memmove counting 4 3 3 6 ≡ 5
unfolding memmove copy_down
up = refl

down : memmove counting 3 4 3 5 ≡ 6
unfolding memmove copy_up
down = refl

alike : memcmp counting 3 259 4 ≡ 0
unfolding memcmp
alike = refl

length_there : strlen 5 counting 253 ≡ some 3
unfolding strlen
length_there = refl
