-- ===== src/ControlCenter/Exchange/Tests.antt =====
-- A settings page that stores a volume, over a socket.
use kitt_assistant.Base.{
  split_by, split_whitespace, is_whitespace, trim_start, trim_end, from_utf8, refl, ◌≡◌, List, [],
  ◌∷◌, ◌++◌, reverse, ℕ, arith, ok, err, codes, text_eq, trim, to_ascii_lowercase, retain,
}
use kitt_assistant.ControlCenter.Exchange.{
  Received, read_request, lines_of, line_text, is_ended, split_colon, read_headers, header,
  digits_value, parse_usize, declared_length, before_query, request_line, read_body, unread,
}
use kitt_assistant.ControlCenter.Exchange.Reading.{
  print_headers, print_head, IsPlain, read_request-print,
}

abbrev put_bytes : List ℕ
put_bytes =
    codes "PUT /api/v1/config?x HTTP/1.1\r\nHost: localhost:41828\r\nContent-Length: 1\r\n\r\nPG"

reads_put :
    read_request (ok tt) put_bytes
    ≡ ok (record {
      method = codes "PUT";
      path = codes "/api/v1/config";
      headers = (codes "content-length", codes "1") ∷ (codes "host", codes "localhost:41828") ∷ [];
      body = b'P' ∷ [];
    })
unfolding read_request lines_of line_text is_ended from_utf8 request_line before_query
    split_whitespace split_by retain is_whitespace read_headers split_colon trim trim_start trim_end
    to_ascii_lowercase text_eq declared_length header parse_usize digits_value read_body unread
reads_put = refl

times_out :
    read_request (err (codes "timed out")) (codes "GET / HTTP/1.1") ≡ err (codes "timed out")
unfolding read_request lines_of line_text is_ended
times_out = refl

abbrev plain : Received
plain = record {
  method = codes "PUT";
  path = codes "/";
  headers = (codes "content-length", codes "1") ∷ [];
  body = 80 ∷ [];
}

plain-IsPlain : IsPlain plain
unfolding is_whitespace declared_length header parse_usize digits_value text_eq print_headers
    to_ascii_lowercase
plain-IsPlain = record {
  has_method = λ e. cc;
  method_bytes = ground arith;
  has_path = λ e. cc;
  path_bytes = ground arith;
  plain_headers = (
    record {
      named = λ e. cc;
      name_bytes = ground arith;
      value_bytes = ground arith;
      bare_start = refl;
      bare_end = refl;
    },
    tt,
  );
  declared = refl;
  head_fits = omega arith;
  body_fits = omega arith;
}

read_request-print_example :
    read_request (ok tt) (print_head plain ++ (plain.body ++ (71 ∷ [])))
    ≡ ok (record plain { headers = reverse plain.headers })
read_request-print_example = read_request-print (ok tt) plain (71 ∷ []) plain-IsPlain
