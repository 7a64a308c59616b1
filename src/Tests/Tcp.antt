-- ===== src/Tests/Tcp.antt =====
-- Request lines of clients, where white space is the space.
use plcmaster.Prelude.{
  ℕ, zero, suc, ◌+◌, get_elem?, sym, ap, ◌∙◌, some_inj, ◌≤◌, ◌≡◌, refl, Bool, true, false, some,
  List, [], ◌∷◌, ◌==◌, length, CString, codes, arith,
}
use plcmaster.Rpc.{write}
use plcmaster.Tcp.{receive, feed, parse_request, max_line}
use plcmaster.Tcp.Line.{IsText, WireLine, receive_lines, feed_bounded}
use plcmaster.Tcp.Request.{IsWord, write_line, parse_request-write_line}

abbrev is_blank : ℕ → Bool
is_blank c = c == 32

letters_not_blank : (c : ℕ) → 65 ≤ c → c ≤ 90 → is_blank c ≡ false
letters_not_blank c h h' = ground arith

only_byte : (c k d : ℕ) → get_elem? (c ∷ []) k ≡ some d → c ≡ d
only_byte c zero d at = some_inj at
only_byte c (suc k) d at = cc

-- A name of one letter and a value of one digit.
one_byte : (c : ℕ) → is_blank c ≡ false → IsWord is_blank (c ∷ [])
one_byte c h = record {
  head = c;
  tail = [];
  cons = refl;
  plain = λ k d at. ap is_blank (sym (only_byte c k d at)) ∙ h;
}

parse_request-write_line_example :
    parse_request is_blank 7 (write_line (codes "T") (codes "5"))
    ≡ some (record { id = 7; op = write; name = codes "T"; value = codes "5" })
parse_request-write_line_example =
    parse_request-write_line is_blank refl letters_not_blank 7 (codes "T") (codes "5")
      (one_byte 84 refl) (one_byte 53 refl)

-- The lines that were answered; a line is answered where it is not empty.
abbrev log : CString → List CString → List CString × Bool
log line seen = (line ∷ seen, elim line [ [] ↦ false | c ∷ cs ↦ true ])

letter-IsText : IsText (codes "A")
letter-IsText k c at = ground (arith, only_byte 65 k c at)

abbrev sent_line : Bool → WireLine
sent_line returns = record { text = codes "A"; returns = returns; plain = letter-IsText }

-- Two lines, of which the second has a carriage return, in two blocks.
receive_lines_example :
    receive log (codes "A\nA" ∷ codes "\r\n" ∷ []) [] [] ≡ ((codes "A" ∷ codes "A" ∷ [], []), true)
receive_lines_example =
    receive_lines log (codes "A\nA" ∷ codes "\r\n" ∷ []) (sent_line false ∷ sent_line true ∷ []) []
      refl

feed_bounded_example : length (feed log (codes "A\r\nBC") [] []).0.1 + 1 ≤ max_line
feed_bounded_example = feed_bounded log (codes "A\r\nBC") [] [] (omega arith)
