-- ===== src/Actions/Engine/Order.antt =====
-- The order of the ranking: higher scores first, and titles among equal scores.
use myr.Prelude.{◌≡◌, true, false, arith}
use myr.Prelude.Sort.{IsOrder}
use myr.Prelude.Text.Order.{text_lt_asym, text_lt_trans}
use myr.Actions.Invocation.{RankedAction}
use myr.Actions.Engine.{ranks_before}

ranks_asym : (a b : RankedAction) → ranks_before a b ≡ true → ranks_before b a ≡ false
unfolding ranks_before
ranks_asym a b h = ground (arith, text_lt_asym a.title b.title)

ranks_trans :
    (a b c : RankedAction)
    → ranks_before b a ≡ false
    → ranks_before c b ≡ false
    → ranks_before c a ≡ false
unfolding ranks_before
ranks_trans a b c h k = ground (arith, text_lt_trans a.title b.title c.title)

pub ranks-IsOrder : IsOrder ranks_before
ranks-IsOrder = record { asym = ranks_asym; trans = ranks_trans }
