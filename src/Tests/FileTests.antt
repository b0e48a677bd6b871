-- ===== src/Tests/FileTests.antt =====
-- src/fs/file.c over a file system that opens every path with its mode as the private data.
use tmp_os.Base.{
  ℕ, zero, suc, ◌+◌, ◌<◌, ◌≡◌, ◌≢◌, ◌⊎◌, refl, none, some, Option, List, [], ◌∷◌, arith, get_elem?,
  set, replicate, length-replicate, get_elem?-replicate, length-set, get_elem?-set_self,
  get_elem?-set_ne, ◌∙◌,
}
use tmp_os.Base.Int.{pos}
use tmp_os.Base.Errno.{neg_einvarg, neg_enomem}
use tmp_os.Disk.{the_disk}
use tmp_os.File.{
  FileSystem, FileDescriptor, Files, opened, failed, max_file_descriptors, fopen, fclose, fread,
  fseek, file_get_descriptor,
}
use tmp_os.File.Open.{Registered, fopen_cases}
use tmp_os.File.Close.{fclose-Registered, last_slot_lost}
use tmp_os.File.Valid.{IsValid, Numbered, fopen-IsValid}
use tmp_os.File.Closing.{Closes, fclose_cases}

abbrev toy : FileSystem ℕ
toy = record {
  resolve = λ d. some (pos 0);
  open_path = λ d path mode. some (opened mode);
  read = λ d p size nmemb ptr. some (pos nmemb, p + 1, ptr);
  seek = λ p offset seek_mode. some (pos 0, p);
  stat = λ d p. some (pos 0, some (record { flags = 0; file_size = p }));
  close = λ p. some (pos 0);
}

abbrev none_open : Files ℕ
none_open = record {
  filesystems = [];
  file_descriptors = replicate max_file_descriptors none;
  disk_fs = some toy;
}

abbrev desc : ℕ → FileDescriptor ℕ
desc n = record { index = n; filesystem = toy; private_data = 0; disk = the_disk }

abbrev one_open : Files ℕ
one_open = record none_open { file_descriptors = set none_open.file_descriptors 0 (some (desc 1)) }

abbrev name : List ℕ
name = b'0' ∷ b':' ∷ b'/' ∷ b'a' ∷ 0 ∷ []

abbrev mode : List ℕ
mode = b'r' ∷ 0 ∷ []

fopen_run : fopen name mode none_open ≡ some (pos 1, one_open)
unfolding fopen tmp_os.File.open_result tmp_os.Parser.parser_parse tmp_os.Strings.strlen
    tmp_os.Parser.parser_get_drive_by_path tmp_os.Parser.path_valid tmp_os.Strings.strnlen
    tmp_os.Strings.isdigit tmp_os.Strings.memcmp tmp_os.Parser.parse_parts
    tmp_os.Parser.parser_get_path_part tmp_os.Parser.cut_part tmp_os.File.open_on
    tmp_os.File.open_in tmp_os.File.file_get_mode_by_string tmp_os.Strings.strncmp
    tmp_os.File.open_with tmp_os.File.first_free tmp_os.Disk.disk_get
    tmp_os.File.file_new_descriptor tmp_os.File.out
fopen_run = refl

fopen_cases_example :
    ((pos 1 ≡ pos 0) × (one_open ≡ none_open)) ⊎ Registered none_open (pos 1) one_open
fopen_cases_example = fopen_cases name mode none_open one_open (pos 1) fopen_run

none_inside : (n i : ℕ) (d : FileDescriptor ℕ) → get_elem? (replicate n none) i ≢ some (some d)
none_inside zero i d e = cc
none_inside (suc n) zero d e = cc
none_inside (suc n) (suc i) d e = none_inside n i d e

none-Numbered : (n : ℕ) → Numbered {P = ℕ} (replicate n none)
none-Numbered n i d e = absurd (none_inside n i d e)

none_open-IsValid : IsValid none_open
none_open-IsValid = record {
  sized = length-replicate {A = Option (FileDescriptor ℕ)} max_file_descriptors none;
  numbered = none-Numbered max_file_descriptors;
}

fopen-IsValid_example : IsValid one_open
fopen-IsValid_example =
    fopen-IsValid name mode none_open one_open (pos 1) none_open-IsValid fopen_run

abbrev first_registered : Registered none_open (pos 1) one_open
first_registered = record {
  slot = 0;
  descriptor = desc 1;
  first = record { inside = omega arith; is_free = refl; earlier = λ j h. absurd (omega arith) };
  numbered = refl;
  result = refl;
  table = refl;
}

fclose-Registered_example :
    (file_get_descriptor (pos 1) one_open ≡ some (desc 1))
    × (fclose (pos 1) one_open ≡ some (pos 0, none_open))
fclose-Registered_example =
    fclose-Registered none_open one_open (pos 1) (pos 0) first_registered (omega arith) refl refl

abbrev one_read : Files ℕ
one_read = record one_open {
  file_descriptors = set one_open.file_descriptors 0 (some (record (desc 1) { private_data = 1 }));
}

fclose_run : fclose (pos 1) one_open ≡ some (pos 0, none_open)
unfolding fclose file_get_descriptor tmp_os.File.file_free_descriptor
fclose_run = refl

fread_run : fread [] 4 2 (pos 1) one_open ≡ some (pos 2, [], one_read)
unfolding fread file_get_descriptor tmp_os.File.with_private
fread_run = refl

fseek_run : fseek (pos 1) (pos 5) 2 one_open ≡ some (pos 0, one_open)
unfolding fseek file_get_descriptor tmp_os.File.with_private
fseek_run = refl

fclose_cases_example : Closes (pos 1) one_open (pos 0) none_open
fclose_cases_example =
    fclose_cases (pos 1) (pos 0) one_open none_open fopen-IsValid_example fclose_run

abbrev all_open : Files ℕ
all_open = record none_open {
  file_descriptors = set (replicate max_file_descriptors (some (desc 1))) 511 none;
}

abbrev full : Files ℕ
full = record none_open { file_descriptors = set (all_open.file_descriptors) 511 (some (desc 512)) }

not_last : (j : ℕ) → j < 511 → 511 ≢ j
not_last j h = omega arith

abbrev last_registered : Registered all_open (pos 512) full
last_registered = record {
  slot = 511;
  descriptor = desc 512;
  first = record {
    inside = omega (
      arith,
      length-set (replicate max_file_descriptors (some (desc 1))) 511 none,
      length-replicate max_file_descriptors (some (desc 1)),
    );
    is_free =
        get_elem?-set_self (replicate max_file_descriptors (some (desc 1))) 511 none
          (omega (arith, length-replicate max_file_descriptors (some (desc 1))));
    earlier = λ j h. (
      desc 1,
      get_elem?-set_ne (replicate max_file_descriptors (some (desc 1))) none (not_last j h)
          ∙ get_elem?-replicate max_file_descriptors j (some (desc 1)) (omega arith),
    );
  };
  numbered = refl;
  result = refl;
  table = refl;
}

last_slot_lost_example :
    (fclose (pos 512) full ≡ some (neg_einvarg, full))
    × (fread (0 ∷ []) 4 2 (pos 512) full ≡ some (neg_einvarg, (0 ∷ []), full))
    × (fseek (pos 512) (pos 5) 2 full ≡ some (neg_enomem, full))
last_slot_lost_example =
    last_slot_lost all_open full (pos 512) last_registered (pos 5) 4 2 (0 ∷ []) refl
