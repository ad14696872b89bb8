-- ===== src/Align/Concat.antt =====
-- align_concat returns on the tables of a join tree.
use mathlib.Core.List.Memᴰ
use omwj.Prelude.{List}
use omwj.Trow.{Trow}
use omwj.Runtime.{Runtime, Returns}
