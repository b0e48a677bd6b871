-- ===== src/Base/Errno.antt =====
-- The error numbers of src/memory/status.h, as the negative results that the kernel returns.
use tmp_os.Base.Int.{ℤ, negsuc}

abbrev pub neg_eio : ℤ
neg_eio = negsuc 0

abbrev pub neg_einvarg : ℤ
neg_einvarg = negsuc 1

abbrev pub neg_enomem : ℤ
neg_enomem = negsuc 2

abbrev pub neg_ebadpath : ℤ
neg_ebadpath = negsuc 3

abbrev pub neg_efsnotus : ℤ
neg_efsnotus = negsuc 4

abbrev pub neg_eunimp : ℤ
neg_eunimp = negsuc 6

abbrev pub neg_eistkn : ℤ
neg_eistkn = negsuc 7

abbrev pub neg_einformat : ℤ
neg_einformat = negsuc 8
