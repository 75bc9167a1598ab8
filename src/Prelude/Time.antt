-- ===== src/Prelude/Time.antt =====
-- `std::chrono` on the steady clock: a time point is the number of nanoseconds since the clock's
-- epoch, a default-constructed one is 0, and a difference of time points is compared only with
-- positive durations, where truncated subtraction and signed subtraction agree.
use Prim.Native.Nat.{ℕ, ◌*◌}

abbrev pub TimePoint : Type 0
TimePoint = ℕ

abbrev pub seconds : ℕ → ℕ
seconds n = n * 1_000_000_000

abbrev pub milliseconds : ℕ → ℕ
milliseconds n = n * 1_000_000
