-- ===== src/Tcp/Request.antt =====
-- Request lines, as a client prints them and as the server reads them.
use plcmaster.Prelude.{
  ℕ, zero, suc, ◌-◌, ◌≤◌, ◌≡◌, refl, sym, append-nil, ◌∙◌, ap, some_inj, Bool, true, false, Option,
  none, some, [], ◌∷◌, ◌++◌, if◌then◌else◌, get_elem?, take, CString, str_eq, codes, arith,
}
use plcmaster.Rpc.{read, write}
use plcmaster.Tcp.{skip_ws, split_word, parse_token, parse_request, cmd_size, name_max, value_max}

-- A text that is one token: not empty, without white space.
pub record IsWord (is_space : ℕ → Bool) (w : CString) : Type 0 where
  pub head : ℕ
  pub tail : CString
  pub cons : w ≡ head ∷ tail
  pub plain : (k c : ℕ) → get_elem? w k ≡ some c → is_space c ≡ false

-- The line that reads a tag, and the one that writes a value to it.
abbrev pub read_line : CString → CString
read_line name = codes "READ" ++ 32 ∷ name

abbrev pub write_line : CString → CString → CString
write_line name value = codes "WRITE" ++ 32 ∷ name ++ 32 ∷ value

module _ (is_space : ℕ → Bool) where
  -- What follows a token: the end of the text, or white space.
  record IsEnd (s : CString) : Type 0 where
    stops : split_word is_space s ≡ ([], s)

  IsEnd-nil : IsEnd []
  unfolding split_word
  IsEnd-nil = record { stops = refl }

  IsEnd-space : (c : ℕ) (s : CString) → is_space c ≡ true → IsEnd (c ∷ s)
  unfolding split_word
  IsEnd-space c s h = record { stops = ground arith }

  split_word-append :
      (w s : CString)
      → ((k c : ℕ) → get_elem? w k ≡ some c → is_space c ≡ false)
      → IsEnd s
      → split_word is_space (w ++ s) ≡ (w, s)
  unfolding split_word
  split_word-append [] s plain e = e.stops
  split_word-append (c ∷ w) s plain e =
      let rest = split_word-append w s (λ k. plain (suc k)) e in
      let here : is_space c ≡ false = plain 0 c refl in
      ap
        (λ b.
          if b
          then ([], c ∷ (w ++ s))
          else (c ∷ (split_word is_space (w ++ s)).0, (split_word is_space (w ++ s)).1))
        here
      ∙ ap (λ p. (c ∷ p.0, p.1)) rest

  skip_ws-word : (c : ℕ) (s : CString) → is_space c ≡ false → skip_ws is_space (c ∷ s) ≡ c ∷ s
  unfolding skip_ws
  skip_ws-word c s h = ground arith

  skip_ws-space :
      (c : ℕ) (s : CString) → is_space c ≡ true → skip_ws is_space (c ∷ s) ≡ skip_ws is_space s
  unfolding skip_ws
  skip_ws-space c s h = ground arith

  abbrev cut_token : ℕ → CString × CString → Option (CString × CString)
  cut_token room p = elim (take room p.0) [ [] ↦ none | x ∷ xs ↦ some (x ∷ xs, p.1) ]

  -- The token at the start of a text, cut to `size - 1` bytes.
  parse_token-word :
      (size n : ℕ) (w s : CString)
      → size - 1 ≡ suc n
      → IsWord is_space w
      → IsEnd s
      → parse_token is_space size (w ++ s) ≡ some (take (suc n) w, s)
  unfolding parse_token
  parse_token-word size n w s room h e =
      let here : is_space h.head ≡ false = h.plain 0 h.head (ap (λ l. get_elem? l 0) h.cons) in
      let skipped : skip_ws is_space (w ++ s) ≡ h.head ∷ (h.tail ++ s) =
        ap (λ l. skip_ws is_space (l ++ s)) h.cons ∙ skip_ws-word h.head (h.tail ++ s) here in
      let split : split_word is_space (h.head ∷ (h.tail ++ s)) ≡ (h.head ∷ h.tail, s) =
        ap (λ l. split_word is_space (l ++ s)) (sym h.cons)
        ∙ split_word-append w s h.plain e
        ∙ ap (λ l. (l, s)) h.cons in
      ap
        (λ l. elim l as (λ t. Option (CString × CString)) [
          | [] ↦ none
          | c ∷ p ↦ cut_token (size - 1) (split_word is_space (c ∷ p))
        ])
        skipped
      ∙ ap (cut_token (size - 1)) split
      ∙ ap (λ r. cut_token r (h.head ∷ h.tail, s)) room
      ∙ ap (λ l. some (take (suc n) l, s)) (sym h.cons)

  skips :
      (size c : ℕ) (s : CString)
      → is_space c ≡ true
      → parse_token is_space size (c ∷ s) ≡ parse_token is_space size s
  unfolding parse_token
  skips size c s space =
      ap
        (λ l. elim l as (λ t. Option (CString × CString)) [
          | [] ↦ none
          | x ∷ p ↦ cut_token (size - 1) (split_word is_space (x ∷ p))
        ])
        (skip_ws-space c s space)

  -- The same behind white space.
  parse_token-next :
      (size n : ℕ) (c : ℕ) (w s : CString)
      → size - 1 ≡ suc n
      → is_space c ≡ true
      → IsWord is_space w
      → IsEnd s
      → parse_token is_space size (c ∷ (w ++ s)) ≡ some (take (suc n) w, s)
  parse_token-next size n c w s room space h e =
      skips size c (w ++ s) space ∙ parse_token-word size n w s room h e

  -- No byte of a text is white space.
  abbrev IsPlain : CString → Type 0
  IsPlain w = (k c : ℕ) → get_elem? w k ≡ some c → is_space c ≡ false

  IsPlain-nil : IsPlain []
  IsPlain-nil k c at = cc

  IsPlain-cons : (x : ℕ) (w : CString) → is_space x ≡ false → IsPlain w → IsPlain (x ∷ w)
  IsPlain-cons x w here rest zero c at = ap is_space (sym (some_inj at)) ∙ here
  IsPlain-cons x w here rest (suc k) c at = rest k c at

  parse_read :
      (id : ℕ) (line rest end name : CString)
      → parse_token is_space cmd_size line ≡ some (codes "READ", rest)
      → parse_token is_space name_max rest ≡ some (name, end)
      → parse_request is_space id line
        ≡ some (record { id = id; op = read; name = name; value = [] })
  unfolding parse_request str_eq
  parse_read id line rest end name h1 h2 = ground arith

  parse_write :
      (id : ℕ) (line rest rest' end name value : CString)
      → parse_token is_space cmd_size line ≡ some (codes "WRITE", rest)
      → parse_token is_space name_max rest ≡ some (name, rest')
      → parse_token is_space value_max rest' ≡ some (value, end)
      → parse_request is_space id line
        ≡ some (record { id = id; op = write; name = name; value = value })
  unfolding parse_request str_eq
  parse_write id line rest rest' end name value h1 h2 h3 = ground arith

  module _ (space : is_space 32 ≡ true)
      (letters : (c : ℕ) → 65 ≤ c → c ≤ 90 → is_space c ≡ false) where
    read-IsWord : IsWord is_space (codes "READ")
    read-IsWord = record {
      head = 82;
      tail = codes "EAD";
      cons = refl;
      plain = IsPlain-cons 82 (codes "EAD") (letters 82 (omega arith) (omega arith)) (
          IsPlain-cons 69 (codes "AD") (letters 69 (omega arith) (omega arith)) (
            IsPlain-cons 65 (codes "D") (letters 65 (omega arith) (omega arith))
              (IsPlain-cons 68 [] (letters 68 (omega arith) (omega arith)) IsPlain-nil)));
    }

    write-IsWord : IsWord is_space (codes "WRITE")
    write-IsWord = record {
      head = 87;
      tail = codes "RITE";
      cons = refl;
      plain = IsPlain-cons 87 (codes "RITE") (letters 87 (omega arith) (omega arith)) (
          IsPlain-cons 82 (codes "ITE") (letters 82 (omega arith) (omega arith)) (
            IsPlain-cons 73 (codes "TE") (letters 73 (omega arith) (omega arith)) (
              IsPlain-cons 84 (codes "E") (letters 84 (omega arith) (omega arith))
                (IsPlain-cons 69 [] (letters 69 (omega arith) (omega arith)) IsPlain-nil))));
    }

    -- The last token of a line.
    last_token :
        (size n : ℕ) (w : CString)
        → size - 1 ≡ suc n
        → IsWord is_space w
        → parse_token is_space size (32 ∷ w) ≡ some (take (suc n) w, [])
    last_token size n w room h =
        ap (λ l. parse_token is_space size (32 ∷ l)) (sym (append-nil w))
        ∙ parse_token-next size n 32 w [] room space h IsEnd-nil

    -- Where 32 is white space and no capital letter is, the line `READ <name>` of a name that is not
    -- empty and has no white space is parsed to the read request with the id given, with the first 63
    -- bytes of the name and no value.
    pub parse_request-read_line :
        (id : ℕ) (name : CString)
        → IsWord is_space name
        → parse_request is_space id (read_line name)
          ≡ some (record { id = id; op = read; name = take 63 name; value = [] })
    parse_request-read_line id name h =
        parse_read id (read_line name) (32 ∷ name) [] (take 63 name)
          (parse_token-word cmd_size 14 (codes "READ") (32 ∷ name) refl read-IsWord
            (IsEnd-space 32 name space))
          (last_token name_max 62 name refl h)

    -- Where 32 is white space and no capital letter is, the line `WRITE <name> <value>` of a name and a
    -- value that are not empty and have no white space is parsed to the write request with the id given,
    -- with the first 63 bytes of the name and the first 63 bytes of the value.
    pub parse_request-write_line :
        (id : ℕ) (name value : CString)
        → IsWord is_space name
        → IsWord is_space value
        → parse_request is_space id (write_line name value)
          ≡ some (record { id = id; op = write; name = take 63 name; value = take 63 value })
    parse_request-write_line id name value h h' =
        parse_write id (write_line name value) (32 ∷ name ++ 32 ∷ value) (32 ∷ value) []
          (take 63 name) (take 63 value)
          (parse_token-word cmd_size 14 (codes "WRITE") (32 ∷ name ++ 32 ∷ value) refl write-IsWord
            (IsEnd-space 32 (name ++ 32 ∷ value) space))
          (parse_token-next name_max 62 32 name (32 ∷ value) refl space h
            (IsEnd-space 32 value space))
          (last_token value_max 62 value refl h')
