-- ===== src/Tests/NamingTests.antt =====
-- Sanitized names, with the lower case of ASCII letters.
use syngit.Common.{ℕ, leb, ◌+◌, true, false, ◌&&◌, codes, if◌then◌else◌, ◌≡◌, refl, arith}
use syngit.Naming.{is_allowed, is_valid, soft_sanitize}

abbrev to_lower : ℕ → ℕ
to_lower c = if leb 65 c && leb c 90 then c + 32 else c

valid_name : is_valid (codes "a1.b2-c3") ≡ true
unfolding is_valid
valid_name = refl

leading_dash : is_valid (codes "-foo") ≡ false
unfolding is_valid
leading_dash = refl

mixed_case : soft_sanitize to_lower (codes "Foo_Bar@Baz") ≡ codes "foo-bar-baz"
unfolding soft_sanitize
mixed_case = refl

to_lower_allowed : (c : ℕ) → is_allowed c ≡ true → to_lower c ≡ c
unfolding is_allowed
to_lower_allowed c h = ground arith
