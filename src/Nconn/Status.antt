-- ===== src/Nconn/Status.antt =====
-- The return codes of include/is2/nconn/nconn.h and include/is2/status.h.
use is.Prelude.{ℤ}

abbrev pub nc_status_ok : ℤ
nc_status_ok = ℤ.negsuc 1

abbrev pub nc_status_again : ℤ
nc_status_again = ℤ.negsuc 2

abbrev pub nc_status_error : ℤ
nc_status_error = ℤ.negsuc 3

abbrev pub nc_status_eof : ℤ
nc_status_eof = ℤ.negsuc 5

abbrev pub nc_status_read_unavailable : ℤ
nc_status_read_unavailable = ℤ.negsuc 8
