-- ===== src/Base/Instants.antt =====
-- Instants, as microseconds since 1970 in UTC, and their texts in the order that SQL gives them.
use Prim.Native.Nat.{ℕ, zero, suc, ◌+◌, ◌-◌, ◌*◌, ◌/◌, ◌%◌}
use mathlib.Core.Bool.{Bool, true, false}
use engineering_worker_pool.Base.Tests.{leb, ◌==◌, if◌then◌else◌}

abbrev pub Time : Type 0
Time = ℕ

abbrev pub seconds : ℕ → Time
seconds n = n * 1000000

-- `isoformat` leaves the fraction out when it is 0, and "Z" sorts after ".": of the instants of
-- one second, the whole one has the greatest text.
abbrev pub iso_rank : Time → ℕ
iso_rank t = t / 1000000 * 1000001 + (if t % 1000000 == 0 then 1000000 else t % 1000000)

-- `iso(a) <= iso(b)` as texts.
abbrev pub iso_le : Time → Time → Bool
iso_le a b = leb (iso_rank a) (iso_rank b)

-- A signed argument: `negsuc n` is -(n + 1).
pub data ℤ : Type 0 where
  pos : ℕ → ℤ
  negsuc : ℕ → ℤ

-- `n < 1`
abbrev pub below_one : ℤ → Bool
below_one (pos zero) = true
below_one (pos (suc n)) = false
below_one (negsuc n) = true

-- `now + timedelta(seconds=n)`
abbrev pub add_seconds : Time → ℤ → Time
add_seconds now (pos n) = now + seconds n
add_seconds now (negsuc n) = now - seconds (suc n)
