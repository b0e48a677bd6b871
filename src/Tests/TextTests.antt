-- ===== src/Tests/TextTests.antt =====
-- src/utils.c, src/print/print.c and src/fs/parser.c on small inputs.
use tmp_os.Base.{
  ℕ, suc, ◌-◌, ◌^◌, ◌≤◌, ◌≡◌, ◌↔◌, ◌⊎◌, refl, true, none, some, Option, List, [], ◌∷◌, ◌++◌, arith,
  length, take, drop, replicate,
}
use tmp_os.Base.Int.{ℤ, pos}
use tmp_os.Strings.{strcmp, memcmp, strnlen, strcpy, strncpy, istrncmp}
use tmp_os.Strings.Length.{IsText, stored, strnlen-stored, strnlen_long}
use tmp_os.Strings.Compare.{strcmp-eq_iff, memcmp-eq_iff, istrncmp_misses}
use tmp_os.Strings.Copy.{strcpy_lem, strncpy_overflows}
use tmp_os.Printf.{printf}
use tmp_os.Printf.Output.{printk-shown}
use tmp_os.Print.{word, text, fill_negative, itoau, makeaddr, printk}
use tmp_os.Print.Digits.{value_from, itoau_value, makeaddr-itoau}
use tmp_os.Print.Format.{
  Piece, lit, string, Renders, nil, cons, spell_all, args_all, text_of, printk-Renders,
}
use tmp_os.Print.Hexdump.{hexdump}
use tmp_os.Print.Hexdump.Rows.{dump_pieces, hexdump-Renders}
use tmp_os.Terminal.{Terminal, print}
use tmp_os.Parser.{PathRoot, parser_parse}
use tmp_os.Parser.Parts.{print_path, join, parser_parse-print}
use tmp_os.Parser.Total.{parser_parse_total}

abbrev ab : List ℕ
ab = b'a' ∷ b'b' ∷ []

abbrev abc : List ℕ
abc = b'a' ∷ b'b' ∷ b'c' ∷ []

ab-IsText : IsText ab
ab-IsText = (omega arith, (omega arith, tt))

abc-IsText : IsText abc
abc-IsText = (omega arith, (omega arith, (omega arith, tt)))

strcmp-eq_iff_example :
    (z : ℤ) × (strcmp (stored ab []) (stored abc []) ≡ some z) × ((z ≡ pos 0) ↔ (ab ≡ abc))
strcmp-eq_iff_example =
    strcmp-eq_iff ab abc [] [] ab-IsText abc-IsText (omega arith, (omega arith, tt))
      (omega arith, (omega arith, (omega arith, tt)))

memcmp-eq_iff_example :
    (z : ℤ) × (memcmp ab abc 2 ≡ some z) × ((z ≡ pos 0) ↔ (take 2 ab ≡ take 2 abc))
memcmp-eq_iff_example =
    memcmp-eq_iff 2 ab abc (omega arith) (omega arith) (omega arith, (omega arith, tt))
      (omega arith, (omega arith, (omega arith, tt)))

strnlen-stored_example : strnlen (stored ab (9 ∷ [])) 5 ≡ some (pos 2)
strnlen-stored_example = strnlen-stored ab (9 ∷ []) 5 ab-IsText (omega arith) (omega arith)

strnlen_long_example : strnlen (stored abc (9 ∷ [])) 2 ≡ none
strnlen_long_example = strnlen_long abc (9 ∷ []) 2 abc-IsText (omega arith) (omega arith)

strcpy_lem_example :
    strcpy (1 ∷ 2 ∷ 3 ∷ 4 ∷ []) (stored ab (9 ∷ []))
    ≡ some (ab ++ (0 ∷ drop (suc (length ab)) (1 ∷ 2 ∷ 3 ∷ 4 ∷ [])))
strcpy_lem_example = strcpy_lem ab (9 ∷ []) (1 ∷ 2 ∷ 3 ∷ 4 ∷ []) ab-IsText (omega arith)

strncpy_overflows_example : strncpy (1 ∷ 2 ∷ []) (stored abc []) 2 ≡ none
strncpy_overflows_example = strncpy_overflows abc [] (1 ∷ 2 ∷ []) 2 abc-IsText (omega arith) refl

istrncmp_misses_example :
    istrncmp ([] ++ (b'X' ∷ b'b' ∷ [])) ([] ++ (b'Y' ∷ b'B' ∷ [])) 2 ≡ some (pos 0)
unfolding tmp_os.Strings.tolower
istrncmp_misses_example =
    istrncmp_misses [] [] [] b'X' b'Y' b'b' b'B' 2 (omega arith) (omega arith) refl

itoau_value_example :
    (s : List ℕ) × (itoau true 16 255 ≡ some s)
    × (value_from 16 0 s ≡ 255)
    × ((length s ≡ 1) ⊎ (16 ^ (length s - 1) ≤ 255))
itoau_value_example = itoau_value 16 255 (omega arith) (omega arith)

makeaddr-itoau_example :
    (s a : List ℕ) × (itoau true 16 4096 ≡ some s)
    × (makeaddr s ≡ some (b'0' ∷ b'x' ∷ a))
    × (length a ≡ 8)
    × (value_from 16 0 a ≡ 4096)
makeaddr-itoau_example = makeaddr-itoau 4096 (omega arith)

abbrev corner : Terminal
corner = record { video_mem = replicate 8 0; term_col = 0; term_row = 0 }

abbrev pieces : List Piece
pieces = lit b'x' ∷ string ab ∷ []

pieces-Renders : Renders pieces ((b'x' ∷ []) ++ (ab ++ []))
unfolding text_of
pieces-Renders = cons (omega arith, omega arith) refl (cons tt refl nil)

printk-Renders_example :
    printk true (stored (spell_all pieces) []) (args_all pieces) corner
    ≡ some (3, print ((b'x' ∷ []) ++ (ab ++ [])) corner)
printk-Renders_example = printk-Renders pieces ((b'x' ∷ []) ++ (ab ++ [])) [] corner pieces-Renders

-- Four bytes in a row, and one that is left.
abbrev dumped : List ℕ
dumped = b'a' ∷ 0 ∷ 200 ∷ b'b' ∷ b'c' ∷ []

hexdump-Renders_example :
    (out : List ℕ) × Renders (dump_pieces dumped 5) out
    × (hexdump true dumped 5 corner ≡ some (print out corner))
hexdump-Renders_example = hexdump-Renders dumped 5 corner (omega arith) (omega arith)

abbrev file_path : PathRoot
file_path = record { drive_num = 0; parts = ab ∷ abc ∷ [] }

parser_parse-print_example : parser_parse (stored (print_path file_path) []) ≡ some (some file_path)
unfolding print_path join
parser_parse-print_example =
    parser_parse-print file_path [] (omega arith)
      (
        (omega arith, omega arith, (omega arith, omega arith, tt)),
        (
          (omega arith, omega arith, (omega arith, omega arith, (omega arith, omega arith, tt))),
          λ e. cc,
        ),
      )
      (omega arith)

parser_parse_total_example : (r : Option PathRoot) × (parser_parse (stored abc []) ≡ some r)
parser_parse_total_example = parser_parse_total abc [] abc-IsText (omega arith)

abbrev form : List ℕ
form = b'x' ∷ b'%' ∷ b'i' ∷ 0 ∷ []

printf_run : printf true form (word 25 ∷ []) ≡ some (3, b'x' ∷ b'2' ∷ b'5' ∷ [])
unfolding printf tmp_os.Printf.printf_loop tmp_os.Printf.getarg tmp_os.Printf.arg_word
    tmp_os.Printf.itoa tmp_os.Printf.itoau tmp_os.Print.count_digits tmp_os.Print.fill
    tmp_os.Print.digit tmp_os.Printf.printarg
printf_run = refl

printk-shown_example :
    printk true form (word 25 ∷ []) corner ≡ some (3, print (b'x' ∷ b'2' ∷ b'5' ∷ []) corner)
printk-shown_example =
    printk-shown form (word 25 ∷ []) 3 (b'x' ∷ b'2' ∷ b'5' ∷ []) corner printf_run

-- An empty text is written through NULL by `printf`, and is no text for `printk`.
empty_text : printf true (b'%' ∷ b's' ∷ 0 ∷ []) (text [] ∷ []) ≡ none
unfolding printf tmp_os.Printf.printf_loop tmp_os.Printf.getarg
empty_text = refl

-- The least `int` is printed with characters below the digits.
least_int :
    fill_negative 10 10 (2 ^ 31) []
    ≡ b'.' ∷ b'/' ∷ b',' ∷ b')' ∷ b',' ∷ b'(' ∷ b'-' ∷ b'*' ∷ b',' ∷ b'(' ∷ []
unfolding fill_negative
least_int = refl
