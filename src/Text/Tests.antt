-- ===== src/Text/Tests.antt =====
-- Runs of lib/genel_fonksiyonlar.c, and the theorem at one of them.
use makarna_x.Base.{◌<◌, ◌≡◌, ◌^◌, refl, arith}
use makarna_x.Text.Convert.{Buffer, int_to_string, str_to_int, atoi}
use makarna_x.Text.RoundTrip.{int_to_string-reads_back}

abbrev blank : Buffer
blank i = 120

int_to_string-reads_back_example :
    (str_to_int (int_to_string blank 48879 16).0 (int_to_string blank 48879 16).1 ≡ 48879)
    × (48879 < 2 ^ 31
        → atoi (int_to_string blank 48879 10).0 (int_to_string blank 48879 10).1 ≡ 48879)
int_to_string-reads_back_example = int_to_string-reads_back blank 48879 (omega arith)

-- 0xbeef, with its last character.
beef : (int_to_string blank 48879 16).1 3 ≡ 102
unfolding int_to_string
beef = refl
