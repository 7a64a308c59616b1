-- ===== src/Tcp/Line.antt =====
-- The lines that the server gathers from the bytes of a client.
use plcmaster.Prelude.{
  ltb, take, take-all, inl, inr, Bool-cases, zero, ◌-◌, ℕ, suc, ◌+◌, ◌<◌, ◌≤◌, ◌≡◌, refl, sym, ap,
  get_elem?, append-nil, append_assoc, ◌∙◌, some, Bool, true, false, List, [], ◌∷◌, ◌++◌, length,
  length-append, if◌then◌else◌, CString, arith,
}
use plcmaster.Tcp.{receive, text_of, feed, max_line}

module _ {State : Type 0} (answer : CString → State → State × Bool) where
  feed-append :
      (xs ys : List ℕ) (line : List ℕ) (s : State)
      → feed answer (xs ++ ys) line s ≡ (
          if (feed answer xs line s).1
          then feed answer ys (feed answer xs line s).0.1 (feed answer xs line s).0.0
          else feed answer xs line s)
  unfolding feed
  feed-append [] ys line s = refl
  feed-append (c ∷ xs) ys line s =
      let next = feed-append xs ys [] (answer (text_of line) s).0 in
      let skip = feed-append xs ys line s in
      let more = feed-append xs ys (line ++ c ∷ []) s in ground arith

  -- Where the line is shorter than its array of 512 bytes, with a byte for the end, so is the line that
  -- is left after any bytes.
  pub feed_bounded :
      (xs : List ℕ) (line : List ℕ) (s : State)
      → length line + 1 ≤ max_line
      → length (feed answer xs line s).0.1 + 1 ≤ max_line
  unfolding feed
  feed_bounded [] line s h = h
  feed_bounded (c ∷ xs) line s h =
      let next = feed_bounded xs [] (answer (text_of line) s).0 (omega arith) in
      let skip = feed_bounded xs line s h in
      let more : length line + 2 ≤ max_line
          → length (feed answer xs (line ++ c ∷ []) s).0.1 + 1 ≤ max_line =
        λ room.
          feed_bounded xs (line ++ c ∷ []) s (omega (arith, length-append line (c ∷ []), room)) in
      ground (arith, more)

-- Bytes that neither end a line nor are left out: those above 13.
abbrev pub IsText : List ℕ → Type 0
IsText w = (k c : ℕ) → get_elem? w k ≡ some c → 13 < c

text_of-take : (n : ℕ) (w : List ℕ) → IsText w → text_of (take n w) ≡ take n w
unfolding text_of
text_of-take zero w h = refl
text_of-take (suc n) [] h = refl
text_of-take (suc n) (c ∷ w) h =
    let here : 13 < c = h 0 c refl in
    let rest = text_of-take n w (λ k. h (suc k)) in ground (arith, here, rest)

take-prefix : (xs ys : List ℕ) → take (length xs) (xs ++ ys) ≡ xs
take-prefix [] ys = refl
take-prefix (x ∷ xs) ys = ap (λ l. x ∷ l) (take-prefix xs ys)

-- A line as a client sends it: a text with a newline behind it, or a carriage return and a newline.
pub record WireLine : Type 0 where
  pub text : List ℕ
  pub returns : Bool
  pub plain : IsText text

abbrev pub line_bytes : WireLine → List ℕ
line_bytes l = l.text ++ (if l.returns then 13 ∷ 10 ∷ [] else 10 ∷ [])

abbrev pub wire : List WireLine → List ℕ
wire [] = []
wire (l ∷ ls) = line_bytes l ++ wire ls

abbrev pub joined : List (List ℕ) → List ℕ
joined [] = []
joined (b ∷ bs) = b ++ joined bs

module _ {State : Type 0} (answer : CString → State → State × Bool) where
  -- What a client is to get: each text answered in turn, cut to 511 bytes, until an answer cannot be sent.
  abbrev pub answer_all : List WireLine → State → State × Bool
  answer_all [] s = (s, true)
  answer_all (l ∷ ls) s =
      let (s', sent) = answer (take (max_line - 1) l.text) s in
      let rest = answer_all ls s' in if sent then rest else (s', false)

  gather :
      (w line : List ℕ) (s : State)
      → IsText w
      → length line < max_line
      → feed answer w line s ≡ ((s, take (max_line - 1) (line ++ w)), true)
  unfolding feed
  gather [] line s h room =
      ap (λ l. ((s, l), true))
        (sym (take-all (max_line - 1) line (omega (arith, room)))
          ∙ ap (take (max_line - 1)) (sym (append-nil line)))
  gather (c ∷ w) line s h room =
      let here : 13 < c = h 0 c refl in
      elim (Bool-cases (ltb (length line + 1) max_line)) [
        | inl fits ↦
            let next =
              gather w (line ++ c ∷ []) s (λ k. h (suc k))
                (ground (arith, length-append line (c ∷ []), fits))
              ∙ ap (λ l. ((s, take (max_line - 1) l), true)) (append_assoc line (c ∷ []) w) in
            ground (arith, here, next)
        | inr full ↦
            let size : length line ≡ max_line - 1 = ground (arith, room) in
            let next =
              gather w line s (λ k. h (suc k)) room
              ∙ ap (λ n. ((s, take n (line ++ w)), true)) (sym size)
              ∙ ap (λ l. ((s, l), true)) (take-prefix line w ∙ sym (take-prefix line (c ∷ w)))
              ∙ ap (λ n. ((s, take n (line ++ c ∷ w)), true)) size in
            ground (arith, here, next)
      ]

  if_pair :
      {A : Type 0} (a : A) (b : Bool)
      → ◌≡◌ {A = A × Bool} (if b then (a, true) else (a, false)) (a, b)
  if_pair a true = refl
  if_pair a false = refl

  newline :
      (n : ℕ) (w : List ℕ) (s : State)
      → IsText w
      → feed answer (10 ∷ []) (take n w) s
        ≡ (((answer (take n w) s).0, []), (answer (take n w) s).1)
  unfolding feed
  newline n w s h =
      ap
        (λ l.
          if (answer l s).1 then (((answer l s).0, []), true) else (((answer l s).0, []), false))
        (text_of-take n w h)
      ∙ if_pair ((answer (take n w) s).0, []) (answer (take n w) s).1

  feed_return :
      (line : List ℕ) (s : State) (returns : Bool)
      → feed answer (if returns then 13 ∷ 10 ∷ [] else 10 ∷ []) line s
        ≡ feed answer (10 ∷ []) line s
  unfolding feed
  feed_return line s true = refl
  feed_return line s false = refl

  feed_line :
      (l : WireLine) (s : State)
      → feed answer (line_bytes l) [] s ≡ (
        ((answer (take (max_line - 1) l.text) s).0, []),
        (answer (take (max_line - 1) l.text) s).1,
      )
  feed_line l s =
      let ending : List ℕ = if l.returns then 13 ∷ 10 ∷ [] else 10 ∷ [] in
      feed-append answer l.text ending [] s
      ∙ ap (λ r. if r.1 then feed answer ending r.0.1 r.0.0 else r)
          (gather l.text [] s l.plain (omega arith))
      ∙ feed_return (take (max_line - 1) l.text) s l.returns
      ∙ newline (max_line - 1) l.text s l.plain

  feed_nil : (s : State) → feed answer [] [] s ≡ ((s, []), true)
  unfolding feed
  feed_nil s = refl

  feed_lines :
      (ls : List WireLine) (s : State)
      → feed answer (wire ls) [] s ≡ (((answer_all ls s).0, []), (answer_all ls s).1)
  feed_lines [] s = feed_nil s
  feed_lines (l ∷ ls) s =
      feed-append answer (line_bytes l) (wire ls) [] s
      ∙ ap (λ r. if r.1 then feed answer (wire ls) r.0.1 r.0.0 else r) (feed_line l s)
      ∙ go (answer (take (max_line - 1) l.text) s)
          (feed_lines ls (answer (take (max_line - 1) l.text) s).0)
    where
      go :
          (r : State × Bool)
          → feed answer (wire ls) [] r.0 ≡ (((answer_all ls r.0).0, []), (answer_all ls r.0).1)
          → (if r.1 then feed answer (wire ls) [] r.0 else ((r.0, []), r.1)) ≡ (
            ((if r.1 then answer_all ls r.0 else (r.0, false)).0, []),
            (if r.1 then answer_all ls r.0 else (r.0, false)).1,
          )
      go (s', true) rest = rest
      go (s', false) rest = refl

  receive-joined :
      (blocks : List (List ℕ)) (line : List ℕ) (s : State)
      → receive answer blocks line s ≡ feed answer (joined blocks) line s
  unfolding receive feed
  receive-joined [] line s = refl
  receive-joined (b ∷ bs) line s =
      go (feed answer b line s)
        (receive-joined bs (feed answer b line s).0.1 (feed answer b line s).0.0)
      ∙ sym (feed-append answer b (joined bs) line s)
    where
      go :
          (r : (State × List ℕ) × Bool)
          → receive answer bs r.0.1 r.0.0 ≡ feed answer (joined bs) r.0.1 r.0.0
          → (if r.1 then receive answer bs r.0.1 r.0.0 else (r.0, false))
            ≡ (if r.1 then feed answer (joined bs) r.0.1 r.0.0 else r)
      go (p, true) rest = rest
      go (p, false) rest = refl

  -- The lines of a client are answered one by one, each text cut to its first 511 bytes, however the bytes
  -- of the lines come in blocks: the server ends in the state that this leaves, with an empty line, and
  -- the client is closed just where an answer could not be sent, with no answer after that. A text has
  -- bytes above 13; behind it come a newline, or a carriage return and a newline.
  pub receive_lines :
      (blocks : List (List ℕ)) (ls : List WireLine) (s : State)
      → joined blocks ≡ wire ls
      → receive answer blocks [] s ≡ (((answer_all ls s).0, []), (answer_all ls s).1)
  receive_lines blocks ls s same =
      receive-joined blocks [] s ∙ ap (λ b. feed answer b [] s) same ∙ feed_lines ls s
