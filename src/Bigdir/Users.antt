-- ===== src/Bigdir/Users.antt =====
-- bigdir.c, `inc_dir_control`: where the users of a new domain are put one after the other.
use vpopmail.Common.{ℕ, zero, suc, ◌≡◌}
use vpopmail.Bigdir.{VdirType, next_dir, inc_dir_control}
use vpopmail.Bigdir.Order.{Seat, base, IsSeat, rank, state}

-- The directory behind another one.
record Next (s : Seat) : Type 0 where
  seat : Seat
  is_seat : IsSeat seat
  follows : rank seat ≡ suc (rank s)
  reached : (n : ℕ) → next_dir (state s n) ≡ state seat n

-- The control record of a new domain behind `n` calls of `inc_dir_control`.
unfoldable pub after_users : ℕ → VdirType
unfolding inc_dir_control
after_users zero = state base 0
after_users (suc n) = inc_dir_control (after_users n)
