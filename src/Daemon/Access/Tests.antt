-- ===== src/Daemon/Access/Tests.antt =====
-- A wrong token, a frame of a client on Windows, and a first start.
use kitt_assistant.Base.{
  is_whitespace, is_ascii_hexdigit, refl, ◌≡◌, ◌↔◌, true, none, some, List, [], ◌∷◌, ℕ, arith, Text,
  ok, codes, bytes, trim,
}
use kitt_assistant.Daemon.Access.{secure_eq, read_frame, pop_line_ends}
use kitt_assistant.Daemon.Access.Comparison.{secure_eq_iff}
use kitt_assistant.Daemon.Access.Token.{TokenFiles, load_or_create_token, new_token, valid_token}

secure_eq_iff_example : (secure_eq (codes "abc") (codes "abd") ≡ true) ↔ (codes "abc" ≡ codes "abd")
secure_eq_iff_example =
    secure_eq_iff (codes "abc") (codes "abd") (omega arith, (omega arith, (omega arith, tt)))
      (omega arith, (omega arith, (omega arith, tt)))

abbrev hi_line : List ℕ
hi_line = b'h' ∷ b'i' ∷ b'\r' ∷ b'\n' ∷ []

hi_frame : read_frame 100 true (some hi_line) ≡ ok (codes "hi")
unfolding read_frame pop_line_ends
hi_frame = refl

abbrev files : TokenFiles
files = record {
  create_dir_all = ok tt;
  read_to_string = λ content. ok content;
  write = ok tt;
  set_private_permissions = ok tt;
}

abbrev digits : Text
digits = codes "0123456789abcdef0123456789abcdef0123456789abcdef0123456789abcdef"

digits_kept : trim digits ≡ digits
unfolding trim is_whitespace
digits_kept = refl

first_token : load_or_create_token files digits none ≡ (ok digits, some digits)
unfolding load_or_create_token new_token valid_token bytes is_ascii_hexdigit
first_token = refl
