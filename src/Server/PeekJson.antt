-- ===== src/Server/PeekJson.antt =====
-- tcpserver/peek_json.go: the first message of a connection, without taking it. `buffered` is what the
-- connection will have sent when it stops, and `size` the size of the reader's buffer, beyond which
-- Peek fails.
use hash_router.Common.{
  ◌≡◌, arith, ℕ, suc, ◌+◌, ◌≤◌, Bool, true, false, ◌||◌, Option, none, some, List, [], ◌∷◌, ◌++◌,
  if◌then◌else◌, ◌==◌, leb, length, take, append_assoc, length-append, take-length_append,
}
use hash_router.Common.Int.{ℤ, pos, ◌+ℤ◌, ◌-ℤ◌, eq_ℤ}

abbrev curly_open : ℕ
curly_open = 123

abbrev curly_closed : ℕ
curly_closed = 125

abbrev square_open : ℕ
square_open = 91

abbrev square_closed : ℕ
square_closed = 93

unfoldable pub is_open : ℕ → Bool
is_open char = (char == curly_open) || (char == square_open)

unfoldable pub is_closed : ℕ → Bool
is_closed char = (char == curly_closed) || (char == square_closed)

-- The counter after a byte.
unfoldable pub count_char : ℤ → ℕ → ℤ
unfolding is_open is_closed
count_char counter char =
    let opened : ℤ = if is_open char then counter +ℤ pos 1 else counter in
    if is_closed char then opened -ℤ pos 1 else opened

-- bufio.Reader.Peek: the first n bytes
abbrev peek : ℕ → List ℕ → ℕ → Option (List ℕ)
peek size buffered n =
    if leb n size then (if leb n (length buffered) then some (take n buffered) else none) else none

-- The loop from i on; `left` are the bytes of the connection from the i-th on, which bound the rounds.
unfoldable pub peek_loop : ℕ → List ℕ → List ℕ → ℕ → ℤ → Option (List ℕ)
unfolding count_char
peek_loop size buffered [] i counter = none
peek_loop size buffered (char ∷ left) i counter =
    let next = peek_loop size buffered left (i + 1) (count_char counter char) in
    elim (peek size buffered i) [
      | none ↦ none
      | some peeked ↦ if eq_ℤ (count_char counter char) (pos 0) then some peeked else next
    ]

unfoldable pub peek_json : ℕ → List ℕ → Option (List ℕ)
unfolding peek_loop
peek_json size buffered = peek_loop size buffered buffered 1 (pos 0)

-- Bytes in which every opening bracket, curly or square, has a closing one after it.
pub data IsBalanced : List ℕ → Type 0 where
  empty : IsBalanced []
  plain :
      {l : List ℕ} (char : ℕ)
      → is_open char ≡ false
      → is_closed char ≡ false
      → IsBalanced l
      → IsBalanced (char ∷ l)
  bracket :
      {l r : List ℕ} (a b : ℕ)
      → is_open a ≡ true
      → is_closed b ≡ true
      → IsBalanced l
      → IsBalanced r
      → IsBalanced (a ∷ (l ++ b ∷ r))

count_char-open : (d a : ℕ) → is_open a ≡ true → count_char (pos d) a ≡ pos (suc d)
unfolding count_char is_open is_closed ◌+ℤ◌ ◌-ℤ◌
count_char-open d a h = ground arith

count_char-closed : (d b : ℕ) → is_closed b ≡ true → count_char (pos (suc d)) b ≡ pos d
unfolding count_char is_open is_closed ◌+ℤ◌ ◌-ℤ◌
count_char-closed d b h = ground arith

count_char-plain :
    (d c : ℕ) → is_open c ≡ false → is_closed c ≡ false → count_char (pos d) c ≡ pos d
unfolding count_char
count_char-plain d c h k = ground arith

module _ (size : ℕ) (buffered : List ℕ) where
  -- A byte that can be peeked and leaves the counter above 0.
  peek_loop-step :
      (char : ℕ) (left : List ℕ) (i : ℕ) (counter : ℤ) (d : ℕ)
      → i ≤ size
      → i ≤ length buffered
      → count_char counter char ≡ pos (suc d)
      → peek_loop size buffered (char ∷ left) i counter
        ≡ peek_loop size buffered left (i + 1) (pos (suc d))
  unfolding peek_loop
  peek_loop-step char left i counter d h k e = ground (arith, h, k, e)

  -- A byte that brings the counter to 0 ends the loop.
  peek_loop-last :
      (char : ℕ) (left : List ℕ) (i : ℕ) (counter : ℤ)
      → i ≤ size
      → i ≤ length buffered
      → count_char counter char ≡ pos 0
      → peek_loop size buffered (char ∷ left) i counter ≡ some (take i buffered)
  unfolding peek_loop
  peek_loop-last char left i counter h k e = ground (arith, h, k, e)

  -- Balanced bytes leave the counter as it was.
  peek_loop-IsBalanced :
      {l : List ℕ}
      → IsBalanced l
      → (left : List ℕ) (i d : ℕ) → i + length l ≤ size + 1
      → i + length l ≤ length buffered + 1
      → peek_loop size buffered (l ++ left) i (pos (suc d))
        ≡ peek_loop size buffered left (i + length l) (pos (suc d))
  peek_loop-IsBalanced empty left i d h k = ground arith
  peek_loop-IsBalanced (plain {l} char o c bal) left i d h k = ground (
    arith,
    peek_loop-step char (l ++ left) i (pos (suc d)) d,
    count_char-plain (suc d) char o c,
    peek_loop-IsBalanced bal left (i + 1) d,
  )
  peek_loop-IsBalanced (bracket {l} {r} a b o c bal bal') left i d h k = ground (
    arith,
    length-append l (b ∷ r),
    append_assoc l (b ∷ r) left,
    peek_loop-step a (l ++ b ∷ r ++ left) i (pos (suc d)) (suc d),
    count_char-open (suc d) a o,
    peek_loop-IsBalanced bal (b ∷ (r ++ left)) (i + 1) (suc d),
    peek_loop-step b (r ++ left) (i + 1 + length l) (pos (suc (suc d))) d,
    count_char-closed (suc d) b c,
    peek_loop-IsBalanced bal' left (i + 1 + length l + 1) d,
  )

  -- A pair of brackets around balanced bytes, at the start of what is buffered.
  peek_loop-bracket :
      (a b : ℕ) (l rest : List ℕ)
      → is_open a ≡ true
      → is_closed b ≡ true
      → IsBalanced l
      → length l + 2 ≤ size
      → length l + 2 ≤ length buffered
      → peek_loop size buffered (a ∷ (l ++ b ∷ rest)) 1 (pos 0)
        ≡ some (take (length l + 2) buffered)
  peek_loop-bracket a b l rest o c bal h k = ground (
    arith,
    peek_loop-step a (l ++ b ∷ rest) 1 (pos 0) 0,
    count_char-open 0 a o,
    peek_loop-IsBalanced bal (b ∷ rest) 2 0,
    peek_loop-last b rest (2 + length l) (pos 1),
    count_char-closed 0 b c,
  )

-- A first message that is a pair of brackets around balanced bytes, and that fits into the buffer, is
-- peeked whole and without what follows it.
pub peek_json-IsBalanced :
    (size a b : ℕ) (l rest : List ℕ)
    → is_open a ≡ true
    → is_closed b ≡ true
    → IsBalanced l
    → length l + 2 ≤ size
    → peek_json size ((a ∷ (l ++ b ∷ [])) ++ rest) ≡ some (a ∷ (l ++ b ∷ []))
unfolding peek_json
peek_json-IsBalanced size a b l rest o c bal h =
    let text : List ℕ = a ∷ (l ++ b ∷ []) in
    ground (
      arith,
      length-append (l ++ b ∷ []) rest,
      length-append l (b ∷ []),
      append_assoc l (b ∷ []) rest,
      peek_loop-bracket size (text ++ rest) a b l rest o c bal h,
      take-length_append text rest,
    )
