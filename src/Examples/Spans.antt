-- ===== src/Examples/Spans.antt =====
-- The span of a snippet at a concrete input (tools/_content_address.py).
use the_soverign_imperia_cit.Base.{◌≡◌, refl, some, inr, []}
use the_soverign_imperia_cit.Base.Text.{codes}
use the_soverign_imperia_cit.Tools.Spans.{Encoding, ByteSpan, find_span}
use the_soverign_imperia_cit.Tools.Spans.Anchored.{IsAnchored, find_span-IsAnchored}

abbrev ascii : Encoding
ascii = record {
  compose = λ s. s;
  encode = λ s. s;
  sha256_hex = λ s. codes "0123456789abcdef0123456789abcdef0123456789abcdef0123456789abcdef";
}

abbrev span : ByteSpan
span = record { source_hash = ascii.sha256_hex []; char_start = 3; char_end = 5 }

found : find_span ascii (codes "ab cd ef") (codes " cd \r\n") ≡ inr (some span)
unfolding find_span
found = refl

find_span-IsAnchored_example : IsAnchored ascii (codes "ab cd ef") (codes " cd \r\n") span
find_span-IsAnchored_example =
    find_span-IsAnchored ascii (codes "ab cd ef") (codes " cd \r\n") span found
