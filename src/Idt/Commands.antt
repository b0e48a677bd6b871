-- ===== src/Idt/Commands.antt =====
-- The system calls that are registered, and their dispatch.
use tmp_os.Base.{
  ℕ, ◌≡◌, Option, none, some, List, ◌==◌, if◌then◌else◌, length, arith, length-set, get_elem?-set,
}
use tmp_os.Base.Int.{pos}
use tmp_os.Idt.{max_isr80h_commands, isr80h_register_command, find_command}

module _ {F : Type 0} where
  -- Registration only takes a free place, puts the command there, and keeps all other places.
  pub register-find :
      (i : ℕ) (f : F) (t t' : List (Option F)) (j : ℕ)
      → length t ≡ max_isr80h_commands
      → isr80h_register_command (pos i) f t ≡ some t'
      → (find_command (pos i) t ≡ none)
        × (length t' ≡ max_isr80h_commands)
        × (find_command (pos j) t' ≡ (if i == j then some f else find_command (pos j) t))
  unfolding isr80h_register_command find_command
  register-find i f t t' j l e =
      ground (arith, get_elem?-set t i j (some f), length-set t i (some f))
