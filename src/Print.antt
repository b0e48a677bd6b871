-- ===== src/Print.antt =====
-- src/print/print.c: numbers as text and formatted output. `alloc` says whether `kmalloc` yields
-- memory for the text of a number; a text is the list of its characters, without the terminator.
pub mod Digits
pub mod Format
pub mod Hexdump
use tmp_os.Base.{
  ℕ, zero, suc, ◌+◌, ◌-◌, ◌*◌, ◌/◌, ◌%◌, ◌^◌, Bool, true, false, ◌||◌, Option, none, some, List, [],
  ◌∷◌, ◌++◌, ltb, leb, ◌==◌, if◌then◌else◌, length, replicate,
}
use tmp_os.Base.Int.{ℤ, pos, negsuc, signed32}
use tmp_os.Terminal.{Terminal, terminal_writechar, kwrite, red, black}

unfoldable pub digit : ℕ → ℕ
digit d = if ltb d 10 then d + b'0' else d - 10 + b'A'

-- The loop that counts the digits. `none`: more rounds than `fuel` (at base 1 it never ends).
unfoldable pub count_digits : ℕ → ℕ → ℕ → ℕ → Option ℕ
count_digits zero base copy size = none
count_digits (suc f) base copy size =
    let rest = count_digits f base (copy / base) (size + 1) in if copy == 0 then some size else rest

-- The loop that writes the digits, the last one first.
unfoldable pub fill : ℕ → ℕ → ℕ → List ℕ → List ℕ
fill zero base copy text = text
fill (suc size) base copy text = fill size base (copy / base) (digit (copy % base) ∷ text)

-- For a base that is not 0. A number below `fuel` has fewer digits than that.
unfoldable pub itoau : Bool → ℕ → ℕ → Option (List ℕ)
itoau alloc base num =
    if ltb 32 base
    then none
    else if num == 0
    then some (b'0' ∷ [])
    else elim (count_digits (num + 1) base num 0) [
      | none ↦ none
      | some size ↦ if alloc then some (fill size base num []) else none
    ]

abbrev pub magnitude : ℤ → ℕ
magnitude (pos n) = n
magnitude (negsuc n) = suc n

-- The loop that writes the digits where the number stays negative, and each is negative, too.
unfoldable pub fill_negative : ℕ → ℕ → ℕ → List ℕ → List ℕ
fill_negative zero base copy text = text
fill_negative (suc size) base copy text =
    fill_negative size base (copy / base) ((b'0' - copy % base) ∷ text)

-- The case of the least `int`, by its magnitude.
unfoldable pub itoa_least : Bool → ℕ → ℕ → Option (List ℕ)
itoa_least alloc base num = if ltb 32 base then none else elim (count_digits (num + 1) base num 0) [
  | none ↦ none
  | some size ↦ if alloc then some (fill_negative size base num []) else none
]

-- Division in C rounds towards 0, so that both loops see only the magnitude, but for the least
-- `int`, whose negation is taken to wrap around to itself.
unfoldable pub itoa : Bool → ℕ → ℤ → Option (List ℕ)
unfolding itoau itoa_least
itoa alloc base num =
    if ltb (magnitude num) (2 ^ 31)
    then itoau alloc base (magnitude num)
    else itoa_least alloc base (magnitude num)

-- `none`: a string of more than 8 characters makes the padding run over the buffer.
unfoldable pub makeaddr : List ℕ → Option (List ℕ)
makeaddr s =
    if ltb 8 (length s) then none else some (b'0' ∷ b'x' ∷ (replicate (8 - length s) b'0' ++ s))

-- One argument of a variadic call: a 32-bit word, or a pointer to a string.
pub data Arg : Type 0 where
  word : ℕ → Arg
  text : List ℕ → Arg

-- What `getarg` returns, and the arguments that it leaves. `fault`: an argument is missing or of
-- the wrong kind, or `makeaddr` is given NULL or too long a string.
pub data Got : Type 0 where
  fault : Got
  got : Option (List ℕ) → List Arg → Got

unfoldable pub with_word : List Arg → (ℕ → Option (List ℕ)) → Got
with_word (word w ∷ args) f = got (f w) args
with_word (text s ∷ args) f = fault
with_word [] f = fault

unfoldable pub with_text : List Arg → Got
with_text (text s ∷ args) = got (some s) args
with_text (word w ∷ args) = fault
with_text [] = fault

unfoldable pub address_of : Bool → ℕ → List Arg → Got
address_of alloc w args = elim (itoau alloc 16 w) [
  | none ↦ fault
  | some s ↦ elim (makeaddr s) [ none ↦ fault | some a ↦ got (some a) args ]
]

unfoldable pub with_address : Bool → List Arg → Got
unfolding address_of
with_address alloc (word w ∷ args) = address_of alloc w args
with_address alloc (text s ∷ args) = fault
with_address alloc [] = fault

-- By the character behind the `%`.
unfoldable pub getarg : Bool → ℕ → List Arg → Got
unfolding with_word with_text with_address
getarg alloc c args =
    if (c == b'i') || (c == b'd')
    then with_word args (λ w. itoa alloc 10 (signed32 w))
    else if c == b'%'
    then got (some (b'%' ∷ [])) args
    else if c == b'X'
    then with_word args (λ w. itoa alloc 16 (signed32 w))
    else if c == b's'
    then with_text args
    else if c == b'c'
    then with_word args (λ w. some (if w % 256 == 0 then [] else (w % 256) ∷ []))
    else if c == b'p'
    then with_address alloc args
    else got none args

-- Writes the characters and counts them.
unfoldable pub printarg : Option (List ℕ) → Terminal → ℕ × Terminal
printarg none t = (0, t)
printarg (some s) t = kwrite s 0 t

-- The loop of `printk` over the bytes from `form` on, with the count so far. `none`: a byte beyond
-- the buffer is read, or `getarg` fails. Behind a `%` two bytes are passed, whatever they are.
unfoldable pub printk_loop : Bool → List ℕ → List Arg → ℕ → Terminal → Option (ℕ × Terminal)
printk_loop alloc [] args i t = none
printk_loop alloc (c ∷ []) args i t = if c == 0 then some (i, t) else none
printk_loop alloc (c ∷ d ∷ form) args i t =
    let plain = printk_loop alloc (d ∷ form) args (i + 1) (terminal_writechar c red black t) in
    let directive : Option (ℕ × Terminal) = elim (getarg alloc d args) [
      | fault ↦ none
      | got s args' ↦ let (n, t') = printarg s t in printk_loop alloc form args' (i + n) t'
    ] in
    if c == 0 then some (i, t) else if c == b'%' then directive else plain

unfoldable pub printk : Bool → List ℕ → List Arg → Terminal → Option (ℕ × Terminal)
unfolding printk_loop
printk alloc form args t = printk_loop alloc form args 0 t
