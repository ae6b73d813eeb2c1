-- ===== src/Text.antt =====
-- lib/genel_fonksiyonlar.c: numbers as text. A buffer of characters is a function of the place.
pub mod Convert
pub mod Written
pub mod RoundTrip
pub mod Tests
