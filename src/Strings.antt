-- ===== src/Strings.antt =====
-- src/ks_string.c: strings cut at a delimiter, and the encoding of URLs. A string is the list of its
-- bytes, without the NUL at its end.
pub mod Separate
pub mod Url
pub mod Scanner
mod Tests
