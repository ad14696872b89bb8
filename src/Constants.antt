-- ===== src/Constants.antt =====
-- common/constants.h: the tags of an entry, the padding value and the safe range of join keys.
use omwj.Prelude.{ℕ}
use omwj.Prelude.Word.{int32_max}

abbrev pub sort_padding : ℕ
sort_padding = 0

abbrev pub source : ℕ
source = 1

abbrev pub start : ℕ
start = 2

abbrev pub end : ℕ
end = 3

abbrev pub dist_padding : ℕ
dist_padding = 5

abbrev pub eq_none : ℕ
eq_none = 0

abbrev pub eq_closed : ℕ
eq_closed = 1

abbrev pub eq_open : ℕ
eq_open = 2

abbrev pub null_value : ℕ
null_value = int32_max

abbrev pub max_attributes : ℕ
max_attributes = 64
