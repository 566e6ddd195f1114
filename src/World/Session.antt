-- ===== src/World/Session.antt =====
-- The session numbers of a context.
-- `newsession` gives a positive `int`, keeps it as the number of the last session, and gives the next
-- number except after the largest `int`, where it starts again at 1.
use cpp_sk.Base.{◌+◌, ◌-◌, ◌%◌, ◌^◌, ◌≤◌, ◌<◌, ◌≡◌, arith}
use cpp_sk.World.{Context, newsession}

newsession-IsPositive :
    (c : Context)
    → c.session_id < 2 ^ 31
    → (1 ≤ (newsession c).1)
      × ((newsession c).1 < 2 ^ 31)
      × ((newsession c).0.session_id ≡ (newsession c).1)
      × ((newsession c).1 ≡ c.session_id % (2 ^ 31 - 1) + 1)
unfolding newsession
newsession-IsPositive c h = ground (arith, h)
